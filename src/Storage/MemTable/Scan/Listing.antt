-- ===== src/Storage/MemTable/Scan/Listing.antt =====
-- What a range scan (ScanRange of storage/zstorage/memtable.go) lists.
use mathlib.Core.List.{append_assoc, append-nil}
use mathlib.Core.Path.{subst}
use ban_db.Prelude.{
  ℕ, zero, suc, ◌+◌, ◌≤◌, List, [], ◌∷◌, ◌++◌, length, Bool, true, false, none, some, if◌then◌else◌,
  ◌≡◌, refl, sym, ◌∙◌, ap, arith, Bool-cases, Option-cases, inl, inr,
}
use ban_db.Bytes.{Bytes}
use ban_db.Bytes.Order.{same, less→not-same, same→eq, same_comm}
use ban_db.Storage.SkipList.{Node}
use ban_db.Storage.SkipList.Search
use ban_db.Storage.SkipList.Search.{from_key}
use ban_db.Storage.SkipList.Table.{lookup, lookup-Above, lookup-past}
use ban_db.Storage.SkipList.Table
use ban_db.Storage.Entries.{Entry, assoc, Above, IsAscending}
use ban_db.Storage.MemTable.{or_else}
use ban_db.Storage.MemTable.Scan.{pick, is_past, scan_loop}
use ban_db.Storage.MemTable.Scan.Picked.{
  visible, both, pick-Picked, gone, pick-none, below_past, hidden,
}

-- The callback that keeps what it is given.
abbrev pub collect : Bytes → Bytes → List Entry → List Entry × Bool
collect key v out = (out ++ ((key, some v) ∷ []), true)

module _ (end : Bytes) where
  unfoldable pub scan_list : ℕ → List Node → List Node → List Entry
  scan_list zero a d = []
  scan_list (suc fuel) a d = elim (pick a d) [
    | none ↦ []
    | some (key, value, a', d') ↦ if is_past end key then [] else elim value [
      | none ↦ scan_list fuel a' d'
      | some v ↦ (key, some v) ∷ scan_list fuel a' d'
    ]
  ]

  pub scan_loop-collect :
      (fuel : ℕ) (a d : List Node) (out : List Entry)
      → scan_loop collect fuel a d end out ≡ out ++ scan_list fuel a d
  unfolding scan_loop scan_list
  scan_loop-collect zero a d out = sym (append-nil out)
  scan_loop-collect (suc fuel) a d out = elim (Option-cases (pick a d)) [
    | inl e ↦ rw (scan_loop, scan_list, e) (sym (append-nil out))
    | inr ((key, value, a', d'), e) ↦ elim (Bool-cases (is_past end key)) [
      | inl p ↦ rw (scan_loop, scan_list, e, p) (sym (append-nil out))
      | inr p ↦ elim (Option-cases value) [
        | inl f ↦ rw (scan_loop, scan_list, e, p, f) (scan_loop-collect fuel a' d' out)
        | inr (v, f) ↦
            rw (scan_loop, scan_list, e, p, f)
              (scan_loop-collect fuel a' d' (out ++ ((key, some v) ∷ []))
                ∙ append_assoc out ((key, some v) ∷ []) (scan_list fuel a' d'))
      ]
    ]
  ]

  scan_list-Above :
      (fuel : ℕ) (a d : List Node) (k : Bytes)
      → Search.IsAscending a
      → Search.IsAscending d
      → Search.Above k a
      → Search.Above k d
      → Above k (scan_list fuel a d) × IsAscending (scan_list fuel a d)
  unfolding scan_list
  scan_list-Above zero a d k asc_a asc_d x y = (tt, tt)
  scan_list-Above (suc fuel) a d k asc_a asc_d x y = elim (Option-cases (pick a d)) [
    | inl e ↦ rw (scan_list, e) (tt, tt)
    | inr ((key, value, a', d'), e) ↦
        let p = pick-Picked a d (key, value, a', d') asc_a asc_d e in
        let (first, x', y') = p.over k x y in
        let further = scan_list-Above fuel a' d' k p.ascending_a p.ascending_d x' y' in
        let higher =
          scan_list-Above fuel a' d' key p.ascending_a p.ascending_d p.key_above_a p.key_above_d in
        elim (Bool-cases (is_past end key)) [
          | inl q ↦ rw (scan_list, e, q) (tt, tt)
          | inr q ↦ elim (Option-cases value) [
            | inl f ↦ rw (scan_list, e, q, f) further
            | inr (v, f) ↦ rw (scan_list, e, q, f) ((first, further.0), (higher.0, further.1))
          ]
        ]
  ]

  pub assoc-scan_list :
      (fuel : ℕ) (a d : List Node) (j : Bytes)
      → Search.IsAscending a
      → Search.IsAscending d
      → length a + length d ≤ fuel
      → assoc j (scan_list fuel a d) ≡ (if is_past end j then none else visible (both j a d))
  unfolding scan_list assoc
  assoc-scan_list zero [] [] j asc_a asc_d l = unfold lookup or_else in hidden (is_past end j)
  assoc-scan_list zero [] (d ∷ ds) j asc_a asc_d l = absurd (omega (arith, l))
  assoc-scan_list zero (a ∷ rest) d j asc_a asc_d l = absurd (omega (arith, l))
  assoc-scan_list (suc fuel) a d j asc_a asc_d l = elim (Option-cases (pick a d)) [
    | inl e ↦ rw (scan_list, e, pick-none a d j e) (hidden (is_past end j))
    | inr ((key, value, a', d'), e) ↦
        let p = pick-Picked a d (key, value, a', d') asc_a asc_d e in
        let ih =
          assoc-scan_list fuel a' d' j p.ascending_a p.ascending_d (omega (arith, l, p.shorter)) in
        elim (Bool-cases (is_past end key)) [
          | inl q ↦ elim (Bool-cases (is_past end j)) [
            | inl z ↦ rw (scan_list, e, q, z) refl
            | inr z ↦
                let under = below_past end key j q z in
                let other : same key j ≡ false = same_comm key j ∙ less→not-same j key under in
                rw
                  (
                    scan_list,
                    e,
                    q,
                    z,
                    p.looks j,
                    other,
                    gone j a' d' (Table.Above-trans j key a' under p.key_above_a)
                        (Table.Above-trans j key d' under p.key_above_d),
                  )
                  refl
          ]
          | inr q ↦ elim (Bool-cases (same key j)) [
            | inl z ↦
                let here : is_past end j ≡ false =
                  ap (λ k. is_past end k) (sym (same→eq key j z)) ∙ q in
                let nothing =
                  gone j a' d' (subst (λ k. Search.Above k a') (same→eq key j z) p.key_above_a)
                    (subst (λ k. Search.Above k d') (same→eq key j z) p.key_above_d) in
                elim (Option-cases value) [
                  | inl f ↦ rw (scan_list, e, q, f, p.looks j, z, f) (ih ∙ rw (here, nothing) refl)
                  | inr (v, f) ↦ rw (scan_list, e, q, f, p.looks j, z, here, f) refl
                ]
            | inr z ↦ elim (Option-cases value) [
              | inl f ↦ rw (scan_list, e, q, f, p.looks j, z) ih
              | inr (v, f) ↦ rw (scan_list, e, q, f, p.looks j, z) ih
            ]
          ]
        ]
  ]

  pub scan_list-IsAscending :
      (fuel : ℕ) (a d : List Node)
      → Search.IsAscending a
      → Search.IsAscending d
      → IsAscending (scan_list fuel a d)
  unfolding scan_list
  scan_list-IsAscending zero a d asc_a asc_d = tt
  scan_list-IsAscending (suc fuel) a d asc_a asc_d = elim (Option-cases (pick a d)) [
    | inl e ↦ rw (scan_list, e) tt
    | inr ((key, value, a', d'), e) ↦
        let p = pick-Picked a d (key, value, a', d') asc_a asc_d e in
        let higher =
          scan_list-Above fuel a' d' key p.ascending_a p.ascending_d p.key_above_a p.key_above_d in
        elim (Bool-cases (is_past end key)) [
          | inl q ↦ rw (scan_list, e, q) tt
          | inr q ↦ elim (Option-cases value) [
            | inl f ↦ rw (scan_list, e, q, f) higher.1
            | inr (v, f) ↦ rw (scan_list, e, q, f) higher
          ]
        ]
  ]
