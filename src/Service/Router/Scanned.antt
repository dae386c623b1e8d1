-- ===== src/Service/Router/Scanned.antt =====
-- What KVServer.Scan of service/fsm.go sends back: the pairs that ScanRange lists and the predicate lets
-- through, up to the limit.
use mathlib.Core.List.{append_assoc, append-nil}
use ban_db.Prelude.{
  ℕ, zero, suc, ◌+◌, ◌-◌, ◌<◌, leb, List, [], ◌∷◌, ◌++◌, length, length-append, take, Bool, true,
  false, none, some, if◌then◌else◌, ◌≡◌, refl, sym, ◌∙◌, ap, arith, Bool-cases, Option-cases, inl,
  inr,
}
use ban_db.Bytes.{Bytes}
use ban_db.Storage.Entries.{Entry}
use ban_db.Storage.Format.{Format}
use ban_db.Storage.SkipList.{Node, first_gte}
use ban_db.Storage.MemTable.{MemTable}
use ban_db.Storage.MemTable.Scan.{pick, is_past, scan_loop, scan_range}
use ban_db.Storage.MemTable.Scan.Listing.{collect, scan_list, scan_loop-collect}
use ban_db.Wire.Scan.{Predicate, ScanEntry}
use ban_db.Service.Router.{max_scan_results, keep_match, kv_scan}

module _ (eval : Predicate → Bytes → Bool) (pred : Predicate) where
  -- The pairs that the predicate lets through.
  abbrev pub matching : List Entry → List ScanEntry
  matching [] = []
  matching ((key, none) ∷ es) = matching es
  matching ((key, some value) ∷ es) =
      let rest = matching es in
      if eval pred value then record { key = key; value = value } ∷ rest else rest

take-nil : (n : ℕ) → ◌≡◌ {A = List ScanEntry} (take n []) []
take-nil zero = refl
take-nil (suc n) = refl

take_one :
    (n : ℕ) (x : ScanEntry) (xs : List ScanEntry) → 0 < n → take n (x ∷ xs) ≡ x ∷ take (n - 1) xs
take_one zero x xs h = elim h [ ]
take_one (suc n) x xs h = ap (λ k. x ∷ take k xs) (omega arith)

module _ (fmt : Format) (max_size : ℕ) (eval : Predicate → Bytes → Bool) (pred : Predicate)
    (end : Bytes) where
  abbrev keep : Bytes → Bytes → List ScanEntry → List ScanEntry × Bool
  keep = keep_match fmt max_size eval pred

  stopped : (out : List ScanEntry) → out ≡ out ++ take (max_scan_results - length out) []
  stopped out = sym (ap (λ r. out ++ r) (take-nil (max_scan_results - length out)) ∙ append-nil out)

  abbrev snoc : List ScanEntry → Bytes → Bytes → List ScanEntry
  snoc out key v = out ++ (record { key = key; value = v } ∷ [])

  keep_no :
      (key v : Bytes) (out : List ScanEntry) → eval pred v ≡ false → keep key v out ≡ (out, true)
  unfolding keep_match
  keep_no key v out q = rw q

  keep_last :
      (key v : Bytes) (out : List ScanEntry)
      → eval pred v ≡ true
      → leb max_scan_results (length (snoc out key v)) ≡ true
      → keep key v out ≡ (snoc out key v, false)
  unfolding keep_match
  keep_last key v out q full = rw (q, full)

  keep_more :
      (key v : Bytes) (out : List ScanEntry)
      → eval pred v ≡ true
      → leb max_scan_results (length (snoc out key v)) ≡ false
      → keep key v out ≡ (snoc out key v, true)
  unfolding keep_match
  keep_more key v out q room = rw (q, room)

  length-snoc : (out : List ScanEntry) (key v : Bytes) → length (snoc out key v) ≡ length out + 1
  length-snoc out key v = length-append out (record { key = key; value = v } ∷ [])

  below_limit :
      (out : List ScanEntry) (key v : Bytes)
      → leb max_scan_results (length (snoc out key v)) ≡ false
      → length (snoc out key v) < max_scan_results
  below_limit out key v room = ground arith

  taken_last :
      (out : List ScanEntry) (key v : Bytes) (rest : List ScanEntry)
      → length out < max_scan_results
      → leb max_scan_results (length (snoc out key v)) ≡ true
      → snoc out key v
        ≡ out ++ take (max_scan_results - length out) (record { key = key; value = v } ∷ rest)
  taken_last out key v rest h full =
      let long = length-snoc out key v in
      let single : max_scan_results - length out - 1 ≡ 0 = ground arith in
      ap (λ r. out ++ r)
        (sym (
          take_one (max_scan_results - length out) (record { key = key; value = v }) rest
            (omega arith)
          ∙ ap (λ n. record { key = key; value = v } ∷ take n rest) single))

  taken_more :
      (out : List ScanEntry) (key v : Bytes) (rest : List ScanEntry)
      → length out < max_scan_results
      → leb max_scan_results (length (snoc out key v)) ≡ false
      → snoc out key v ++ take (max_scan_results - length (snoc out key v)) rest
        ≡ out ++ take (max_scan_results - length out) (record { key = key; value = v } ∷ rest)
  taken_more out key v rest h room =
      let long = length-snoc out key v in
      let fewer : max_scan_results - length (snoc out key v) ≡ max_scan_results - length out - 1 =
        omega (arith, long) in
      append_assoc out (record { key = key; value = v } ∷ []) _
      ∙ ap (λ r. out ++ r)
          (ap (λ n. record { key = key; value = v } ∷ take n rest) fewer
            ∙ sym (
                take_one (max_scan_results - length out) (record { key = key; value = v }) rest
                  (omega arith)))

  kept :
      (fuel : ℕ) (a d : List Node) (out : List ScanEntry)
      → length out < max_scan_results
      → scan_loop keep fuel a d end out
        ≡ out ++ take (max_scan_results - length out) (matching eval pred (scan_list end fuel a d))
  unfolding scan_loop scan_list
  kept zero a d out h = stopped out
  kept (suc fuel) a d out h = elim (Option-cases (pick a d)) [
    | inl e ↦ rw (scan_loop, scan_list, e) (stopped out)
    | inr ((key, value, a', d'), e) ↦ elim (Bool-cases (is_past end key)) [
      | inl p ↦ rw (scan_loop, scan_list, e, p) (stopped out)
      | inr p ↦ elim (Option-cases value) [
        | inl f ↦ rw (scan_loop, scan_list, e, p, f) (kept fuel a' d' out h)
        | inr (v, f) ↦ elim (Bool-cases (eval pred v)) [
          | inr q ↦
              rw (scan_loop, scan_list, e, p, f, keep_no key v out q, q, keep_no key v out q)
                (kept fuel a' d' out h)
          | inl q ↦
              let rest = matching eval pred (scan_list end fuel a' d') in
              elim (Bool-cases (leb max_scan_results (length (snoc out key v)))) [
                | inl full ↦
                    rw
                      (
                        scan_loop,
                        scan_list,
                        e,
                        p,
                        f,
                        keep_last key v out q full,
                        q,
                        keep_last key v out q full,
                      )
                      (taken_last out key v rest h full)
                | inr room ↦
                    rw
                      (
                        scan_loop,
                        scan_list,
                        e,
                        p,
                        f,
                        keep_more key v out q room,
                        q,
                        keep_more key v out q room,
                      )
                      (kept fuel a' d' (snoc out key v) (below_limit out key v room)
                        ∙ taken_more out key v rest h room)
              ]
        ]
      ]
    ]
  ]

  -- KVServer.Scan gives the pairs that ScanRange lists in the range and the predicate lets through, in
  -- the same order, and of these the first 10000.
  pub kv_scan-take :
      (m : MemTable fmt.File) (start : Bytes)
      → kv_scan fmt max_size eval m start end pred
        ≡ take max_scan_results (matching eval pred (scan_range collect m start end []))
  unfolding kv_scan scan_range
  kv_scan-take m start =
      let a = first_gte m.active start in
      let d : List Node = elim m.dirty [ none ↦ [] | some x ↦ first_gte x start ] in
      let fuel = length a + length d in
      kept fuel a d [] (omega arith)
      ∙ ap (λ r. take max_scan_results (matching eval pred r))
          (sym (scan_loop-collect end fuel a d []))
