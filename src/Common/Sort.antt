-- ===== src/Common/Sort.antt =====
-- `sort`, `sort_by_key`, `dedup` and `dedup_by_key` of the standard library on a text key: a stable
-- sort, then the first of each run of equal keys.
use Prim.Native.Nat.{Ordering}
use Prim.Native.String.{String, compare}
use Prim.Native.String.compare as cmp
use mathlib.Core.Path.{◌≡◌, refl, ◌∙◌}
use mathlib.Core.Bool.{Bool, true, false, ◌||◌}
use mathlib.Core.Logic.{inl, inr}
use mathlib.Core.List.{List, [], ◌∷◌}
use native.Mathlib.Omega.{arith}
use text.Mathlib.Text.{◌==◌}
use text.Mathlib.TextEquality.{eq_iff}
use stellar_risk.Common.Tests.{if◌then◌else◌, Bool-cases}
use stellar_risk.Common.Lists.{nonempty}
use stellar_risk.Common.Text.{le_text, lt_text}

-- One of two texts is at most the other.
flip_gt : (s t : String) → compare s t ≡ Ordering.gt → compare t s ≡ Ordering.lt
flip_gt String.[] String.[] h = cc
flip_gt String.[] (String.◌∷◌ d t) h = cc (cmp.nil-cons d t)
flip_gt (String.◌∷◌ c s) String.[] h = cmp.nil-cons c s
flip_gt (String.◌∷◌ c s) (String.◌∷◌ d t) h =
    ground (arith, cmp.cons-cons d c t s, cmp.cons-cons c d s t, flip_gt s t)

pub le_text_total : (s t : String) → le_text s t ≡ false → le_text t s ≡ true
le_text_total s t h = ground (arith, flip_gt s t)

compare_self : (s : String) → compare s s ≡ Ordering.eq
compare_self String.[] = cmp.nil-nil
compare_self (String.◌∷◌ c s) = ground (arith, cmp.cons-cons c c s s, compare_self s)

pub le_text_refl : (s : String) → le_text s s ≡ true
le_text_refl s = ground (arith, compare_self s)

-- At most, and not equal, is below.
pub lt_of_le_of_ne : (s t : String) → le_text s t ≡ true → (s == t) ≡ false → lt_text s t ≡ true
lt_of_le_of_ne s t h n = ground arith

module _ {ℓ} {A : Type ℓ} (key : A → String) where
  -- A new element goes before the ones that are not smaller: equal keys keep their order.
  pub insert_by_key : A → List A → List A
  insert_by_key x [] = x ∷ []
  insert_by_key x (y ∷ ys) =
      let rest = insert_by_key x ys in if le_text (key x) (key y) then x ∷ y ∷ ys else y ∷ rest

  pub sort_by_key : List A → List A
  unfolding insert_by_key
  sort_by_key [] = []
  sort_by_key (x ∷ xs) = insert_by_key x (sort_by_key xs)

  -- Drops the elements that have the key of the one kept last.
  pub dedup_after : String → List A → List A
  dedup_after k [] = []
  dedup_after k (x ∷ xs) = elim (k == key x) [
    | true ↦ dedup_after k xs
    | false ↦ x ∷ dedup_after (key x) xs
  ]

  pub dedup_by_key : List A → List A
  unfolding dedup_after
  dedup_by_key [] = []
  dedup_by_key (x ∷ xs) = x ∷ dedup_after (key x) xs

  -- Each key is at most the next; `k` stands before the first.
  abbrev IsSortedFrom : String → List A → Type 0
  IsSortedFrom k [] = Unit
  IsSortedFrom k (x ∷ xs) = (le_text k (key x) ≡ true) × IsSortedFrom (key x) xs

  abbrev IsSorted : List A → Type 0
  IsSorted [] = Unit
  IsSorted (x ∷ xs) = IsSortedFrom (key x) xs

  -- Each key is below the next, so that no key stands twice.
  abbrev IsAscendingFrom : String → List A → Type 0
  IsAscendingFrom k [] = Unit
  IsAscendingFrom k (x ∷ xs) = (lt_text k (key x) ≡ true) × IsAscendingFrom (key x) xs

  abbrev pub IsAscending : List A → Type 0
  IsAscending [] = Unit
  IsAscending (x ∷ xs) = IsAscendingFrom (key x) xs

  insert_by_key-IsSortedFrom :
      (k : String) (x : A) (ys : List A)
      → le_text k (key x) ≡ true
      → IsSortedFrom k ys
      → IsSortedFrom k (insert_by_key x ys)
  unfolding insert_by_key
  insert_by_key-IsSortedFrom k x [] h s = (h, tt)
  insert_by_key-IsSortedFrom k x (y ∷ ys) h s = elim (Bool-cases (le_text (key x) (key y))) [
    | inl e ↦ rw e (h, (e, s.1))
    | inr e ↦
        rw e (s.0, insert_by_key-IsSortedFrom (key y) x ys (le_text_total (key x) (key y) e) s.1)
  ]

  insert_by_key-IsSorted : (x : A) (ys : List A) → IsSorted ys → IsSorted (insert_by_key x ys)
  unfolding insert_by_key
  insert_by_key-IsSorted x [] s = tt
  insert_by_key-IsSorted x (y ∷ ys) s = elim (Bool-cases (le_text (key x) (key y))) [
    | inl e ↦ rw e (e, s)
    | inr e ↦ rw e (insert_by_key-IsSortedFrom (key y) x ys (le_text_total (key x) (key y) e) s)
  ]

  sort_by_key-IsSorted : (xs : List A) → IsSorted (sort_by_key xs)
  unfolding sort_by_key
  sort_by_key-IsSorted [] = tt
  sort_by_key-IsSorted (x ∷ xs) =
      insert_by_key-IsSorted x (sort_by_key xs) (sort_by_key-IsSorted xs)

  dedup_after-IsAscending :
      (k : String) (xs : List A) → IsSortedFrom k xs → IsAscendingFrom k (dedup_after k xs)
  unfolding dedup_after
  dedup_after-IsAscending k [] s = tt
  dedup_after-IsAscending k (x ∷ xs) s = ground (
    arith,
    eq_iff k (key x),
    lt_of_le_of_ne k (key x),
    dedup_after-IsAscending k xs,
    dedup_after-IsAscending (key x) xs,
  )

  dedup_by_key-IsAscending : (xs : List A) → IsSorted xs → IsAscending (dedup_by_key xs)
  unfolding dedup_by_key
  dedup_by_key-IsAscending [] s = tt
  dedup_by_key-IsAscending (x ∷ xs) s = dedup_after-IsAscending (key x) xs s

  -- After sorting and deduplication the keys ascend strictly.
  pub dedup-sort-IsAscending : (xs : List A) → IsAscending (dedup_by_key (sort_by_key xs))
  dedup-sort-IsAscending xs = dedup_by_key-IsAscending (sort_by_key xs) (sort_by_key-IsSorted xs)

  -- Whether a key occurs.
  abbrev pub has_key : String → List A → Bool
  has_key k [] = false
  has_key k (x ∷ xs) = k == key x || has_key k xs

  has_key-insert_by_key :
      (k : String) (x : A) (ys : List A)
      → has_key k (insert_by_key x ys) ≡ (k == key x || has_key k ys)
  unfolding insert_by_key
  has_key-insert_by_key k x [] = refl
  has_key-insert_by_key k x (y ∷ ys) = ground (arith, has_key-insert_by_key k x ys)

  has_key-sort_by_key : (k : String) (xs : List A) → has_key k (sort_by_key xs) ≡ has_key k xs
  unfolding sort_by_key
  has_key-sort_by_key k [] = refl
  has_key-sort_by_key k (x ∷ xs) =
      rw has_key-insert_by_key (ground (arith, has_key-sort_by_key k xs))

  has_key-dedup_after :
      (k j : String) (xs : List A)
      → (k == j || has_key k (dedup_after j xs)) ≡ (k == j || has_key k xs)
  unfolding dedup_after
  has_key-dedup_after k j [] = refl
  has_key-dedup_after k j (x ∷ xs) =
      ground (arith, eq_iff j (key x), has_key-dedup_after k j xs, has_key-dedup_after k (key x) xs)

  has_key-dedup_by_key : (k : String) (xs : List A) → has_key k (dedup_by_key xs) ≡ has_key k xs
  unfolding dedup_by_key
  has_key-dedup_by_key k [] = refl
  has_key-dedup_by_key k (x ∷ xs) = has_key-dedup_after k (key x) xs

  -- Sorting and deduplication lose no key and add none.
  pub has_key-dedup-sort :
      (k : String) (xs : List A) → has_key k (dedup_by_key (sort_by_key xs)) ≡ has_key k xs
  has_key-dedup-sort k xs = has_key-dedup_by_key k (sort_by_key xs) ∙ has_key-sort_by_key k xs

  nonempty-insert : (x : A) (ys : List A) → nonempty (insert_by_key x ys) ≡ true
  unfolding insert_by_key
  nonempty-insert x [] = refl
  nonempty-insert x (y ∷ ys) = ground arith

  nonempty-dedup : (xs : List A) → nonempty (dedup_by_key xs) ≡ nonempty xs
  unfolding dedup_by_key
  nonempty-dedup [] = refl
  nonempty-dedup (x ∷ xs) = refl

  pub nonempty-dedup-sort : (xs : List A) → nonempty (dedup_by_key (sort_by_key xs)) ≡ nonempty xs
  unfolding sort_by_key
  nonempty-dedup-sort [] = nonempty-dedup []
  nonempty-dedup-sort (x ∷ xs) =
      nonempty-dedup (insert_by_key x (sort_by_key xs)) ∙ nonempty-insert x (sort_by_key xs)
