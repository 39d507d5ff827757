-- ===== src/Pipeline/Letters.antt =====
-- The dead letters that crates/api/src/pipeline.rs leaves, as a table that grows.
use stellar_risk.Common.{
  ℕ, suc, ◌+◌, String, Bool, true, false, ◌≡◌, refl, ◌∙◌, none, List, [], ◌∷◌, ◌++◌, ◌==◌, ◌&&◌,
  any, any-append, append_assoc, length, length-append, arith, eq_refl,
}
use stellar_risk.Common.Int.{pos}
use stellar_risk.Platform.{Platform}
use stellar_risk.Storage.Ingestion.{DeadLetterRow, has_letter_id, add_dead_letter}
use stellar_risk.Storage.Query.{answer, inserted}
use stellar_risk.Pipeline.Batch.{Turn, bury}

-- A dead letter of the source with this payload and this error.
abbrev pub is_letter : String → String → String → DeadLetterRow → Bool
is_letter source raw error r = r.source == source && r.raw_payload == raw && r.error == error

abbrev pub has_letter : String → String → String → List DeadLetterRow → Bool
has_letter source raw error rows = any (is_letter source raw error) rows

module _ ⦃p : Platform⦄ where
  -- The insertion of the dead letter does not fail.
  abbrev pub IsLettering : Turn → Type 0
  IsLettering t = t.lettering 0 ≡ none

  abbrev pub letter_text : Turn → String
  letter_text t = p.uuid_text t.letter_id

  -- The identifiers that the generator has ready for the entries of a list.
  abbrev pub letter_texts {ℓ} : {A : Type ℓ} → (ℕ → Turn) → ℕ → List A → List String
  letter_texts turns i [] = []
  letter_texts turns i (x ∷ xs) = letter_text (turns i) ∷ letter_texts turns (suc i) xs

  -- They differ from each other and from those of the rows.
  abbrev pub AreNew : List String → List DeadLetterRow → Type 0
  AreNew [] rows = Unit
  AreNew (x ∷ xs) rows =
      (any (has_letter_id x) rows ≡ false) × (any (λ y. x == y) xs ≡ false) × AreNew xs rows

  AreNew-append :
      (xs : List String) (rows : List DeadLetterRow) (r : DeadLetterRow)
      → any (λ y. r.id == y) xs ≡ false
      → AreNew xs rows
      → AreNew xs (rows ++ r ∷ [])
  AreNew-append [] rows r n h = tt
  AreNew-append (x ∷ xs) rows r n h = (
    any-append (has_letter_id x) rows (r ∷ []) ∙ ground (arith, n, h.0),
    h.1,
    AreNew-append xs rows r (ground (arith, n)) h.2,
  )

  -- One letter more.
  bury-grows :
      (source raw error : String) (t : Turn) (rows : List DeadLetterRow)
      → IsLettering t
      → any (has_letter_id (letter_text t)) rows ≡ false
      → (r : DeadLetterRow) × (bury source raw error t rows ≡ rows ++ r ∷ [])
        × (is_letter source raw error r ≡ true)
        × (r.id ≡ letter_text t)
  unfolding bury add_dead_letter
  bury-grows source raw error t rows h n = (
    letter,
    rw (bury, add_dead_letter, inserted, n, answer, h) refl,
    ground (arith, eq_refl source, eq_refl raw, eq_refl error),
    refl,
  )
    where
      letter : DeadLetterRow
      letter = record {
        id = letter_text t;
        source = source;
        raw_payload = raw;
        error = error;
        attempts = pos 1;
        first_failed_at = p.to_rfc3339 t.letter_now;
        last_failed_at = p.to_rfc3339 t.letter_now;
      }

  pub AreNew-bury :
      (source raw error : String) (t : Turn) (rows : List DeadLetterRow) (xs : List String)
      → IsLettering t
      → AreNew (letter_text t ∷ xs) rows
      → AreNew xs (bury source raw error t rows)
  AreNew-bury source raw error t rows xs h n =
      let (r, e, l, same) = bury-grows source raw error t rows h n.0 in
      rw e (AreNew-append xs rows r (rw same n.1) n.2)

  -- The rows are still there, with `n` more behind them.
  abbrev pub Grows : ℕ → List DeadLetterRow → List DeadLetterRow → Type 0
  Grows n rows rows' = (more : List DeadLetterRow) × (rows' ≡ rows ++ more) × (length more ≡ n)

  pub Grows-trans :
      (n k : ℕ) (a b c : List DeadLetterRow) → Grows n a b → Grows k b c → Grows (n + k) a c
  Grows-trans n k a b c (m, e, l) (m', e', l') =
      (m ++ m', e' ∙ rw e (append_assoc a m m'), length-append m m' ∙ omega (arith, l, l'))

  pub kept-letter :
      (source raw error : String) (n : ℕ) (rows rows' : List DeadLetterRow)
      → Grows n rows rows'
      → has_letter source raw error rows ≡ true
      → has_letter source raw error rows' ≡ true
  kept-letter source raw error n rows rows' (more, e, l) h =
      rw e (any-append (is_letter source raw error) rows more ∙ ground (arith, h))

  pub bury-has_letter :
      (source raw error : String) (t : Turn) (rows : List DeadLetterRow)
      → IsLettering t
      → any (has_letter_id (letter_text t)) rows ≡ false
      → Grows 1 rows (bury source raw error t rows)
        × (has_letter source raw error (bury source raw error t rows) ≡ true)
  bury-has_letter source raw error t rows h n =
      let (r, e, l, same) = bury-grows source raw error t rows h n in
      (
        (r ∷ [], e, refl),
        rw e (any-append (is_letter source raw error) rows (r ∷ []) ∙ ground (arith, l)),
      )
