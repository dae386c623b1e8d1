-- ===== src/Storage/Wal/Ended.antt =====
-- Replay of storage/wal.go comes to an end on every file.
use mathlib.Core.Path.{subst}
use ban_db.Prelude.{
  ℕ, zero, suc, ◌≤◌, ◌<◌, length, Bool, true, false, Option, none, some, ◌≡◌, refl, sym, ◌∙◌, ap,
  arith, Bool-cases, Option-cases, inl, inr,
}
use ban_db.Bytes.{Bytes}
use ban_db.Bytes.Fixed.{slice, u32_be}
use ban_db.Bytes.Reader.{read_full, read_full-length}
use ban_db.Storage.Wal.{Record, read_value, read_record, replay_loop, replay}

read_value-shorter :
    (n : ℕ) (s : Bytes) (v : Option Bytes) (rest : Bytes)
    → read_value n s ≡ some (v, rest)
    → length rest ≤ length s
unfolding read_value
read_value-shorter zero s v rest h = let same_rest : s ≡ rest = cc h in rw same_rest (omega arith)
read_value-shorter (suc n) s v rest h = elim (Option-cases (read_full (suc n) s)) [
  | inl e ↦ absurd (cc (rw e at h))
  | inr ((x, r), e) ↦
      let same_rest : r ≡ rest = cc (rw e at h) in
      rw (sym same_rest) (omega (arith, (read_full-length (suc n) s x r e).1))
]

-- The nine bytes of its header at least are gone.
read_record-shorter :
    (s : Bytes) (r : Record) (rest : Bytes)
    → read_record s ≡ some (r, rest)
    → length rest < length s
unfolding read_record
read_record-shorter s r rest h = elim (Option-cases (read_full 9 s)) [
  | inl e ↦ absurd (cc (rw e at h))
  | inr ((hdr, s₁), e) ↦ elim (Option-cases (read_full (u32_be (slice hdr 1 5)) s₁)) [
    | inl f ↦ absurd (cc (rw (e, f) at h))
    | inr ((key, s₂), f) ↦ elim (Option-cases (read_value (u32_be (slice hdr 5 9)) s₂)) [
      | inl g ↦ absurd (cc (rw (e, f, g) at h))
      | inr ((value, s₃), g) ↦
          let same_rest : s₃ ≡ rest = cc (rw (e, f, g) at h) in
          let a = (read_full-length 9 s hdr s₁ e).1 in
          let b = (read_full-length (u32_be (slice hdr 1 5)) s₁ key s₂ f).1 in
          let c = read_value-shorter (u32_be (slice hdr 5 9)) s₂ value s₃ g in
          rw (sym same_rest) (omega (arith, a, b, c))
    ]
  ]
]

module _ {ℓ} {S : Type ℓ} (fn : Record → S → S × Bool) where
  -- The loop as it is written, without fuel: from a rest of the file and a state to its result.
  pub data Runs : Bytes → S → S × Bool → Type ℓ where
    ended : {file : Bytes} {s : S} → read_record file ≡ none → Runs file s (s, true)
    failed :
        {file : Bytes} {s : S} (r : Record) (rest : Bytes)
        → read_record file ≡ some (r, rest)
        → (fn r s).1 ≡ false
        → Runs file s ((fn r s).0, false)
    next :
        {file : Bytes} {s : S} {out : S × Bool} (r : Record) (rest : Bytes)
        → read_record file ≡ some (r, rest)
        → (fn r s).1 ≡ true
        → Runs rest (fn r s).0 out
        → Runs file s out

  replay_loop-Runs :
      (fuel : ℕ) (file : Bytes) (s : S)
      → length file < fuel
      → Runs file s (replay_loop fn fuel file s)
  unfolding replay_loop
  replay_loop-Runs zero file s h = absurd (omega arith)
  replay_loop-Runs (suc fuel) file s h = elim (Option-cases (read_record file)) [
    | inl e ↦ rw (replay_loop, e) (ended e)
    | inr ((r, rest), e) ↦
        let shorter = read_record-shorter file r rest e in
        elim (Bool-cases (fn r s).1) [
          | inl good ↦
              rw (replay_loop, e, good)
                (next r rest e good
                  (replay_loop-Runs fuel rest (fn r s).0 (omega (arith, shorter))))
          | inr bad ↦ rw (replay_loop, e, bad) (failed r rest e bad)
        ]
  ]

  same_record :
      (file : Bytes) {r r' : Record} {rest rest' : Bytes}
      → read_record file ≡ some (r, rest)
      → read_record file ≡ some (r', rest')
      → (r ≡ r') × (rest ≡ rest')
  same_record file e f = (cc (sym e ∙ f), cc (sym e ∙ f))

  not_both : (r r' : Record) (s : S) → r ≡ r' → (fn r s).1 ≡ false → (fn r' s).1 ≡ true → ⊥
  not_both r r' s e bad good = cc (sym bad ∙ ap (λ x. (fn x s).1) e ∙ good)

  Runs-unique :
      {file : Bytes} {s : S} {out out' : S × Bool} → Runs file s out → Runs file s out' → out ≡ out'
  Runs-unique (ended e) (ended f) = refl
  Runs-unique (ended e) (failed r rest f bad) = absurd (cc (sym e ∙ f))
  Runs-unique (ended e) (next r rest f good q) = absurd (cc (sym e ∙ f))
  Runs-unique (failed r rest e bad) (ended f) = absurd (cc (sym e ∙ f))
  Runs-unique {s = s} (failed r rest e bad) (failed r' rest' f bad') =
      ap (λ x. ((fn x s).0, false)) (same_record _ e f).0
  Runs-unique (failed r rest e bad) (next r' rest' f good q) =
      absurd (not_both _ _ _ (same_record _ e f).0 bad good)
  Runs-unique (next r rest e good p) (ended f) = absurd (cc (sym e ∙ f))
  Runs-unique (next r rest e good p) (failed r' rest' f bad) =
      absurd (not_both _ _ _ (sym (same_record _ e f).0) bad good)
  Runs-unique {s = s} {out' = out'} (next r rest e good p) (next r' rest' f good' q) =
      Runs-unique p (
        subst (λ (x : Record × Bytes). Runs x.1 (fn x.0 s).0 out')
          (λ i. (sym (same_record _ e f).0 i, sym (same_record _ e f).1 i)) q)

  -- Replay ends on every file, whatever bytes it holds and whether or not the callback fails: the loop
  -- as it is written, which has no bound on its rounds, runs to an end, with the result of the model's
  -- replay.
  pub replay-Runs : (file : Bytes) (s : S) → Runs file s (replay fn (some file) s)
  unfolding replay
  replay-Runs file s = replay_loop-Runs (suc (length file)) file s (omega arith)

  -- It has no other result.
  pub Runs-replay :
      (file : Bytes) (s : S) (out : S × Bool) → Runs file s out → out ≡ replay fn (some file) s
  Runs-replay file s out run = Runs-unique run (replay-Runs file s)
