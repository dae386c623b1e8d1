-- ===== src/Service/Ingest/Rising.antt =====
-- The timestamps that the ingest filter of service/ingesthook/filter.go lets through.
use mathlib.Core.Path.{subst}
use ban_db.Prelude.{
  ◌+◌, ◌<◌, List, [], ◌∷◌, length, true, ◌&&◌, not, Option, none, some, if◌then◌else◌, ◌≡◌, refl,
  sym, ◌∙◌, ap, arith, Bool-cases, Option-cases, inl, inr,
}
use ban_db.Prelude.Int.{ℤ, pos, pos_part, neg_part, leb_ℤ, ltb_ℤ}
use ban_db.Bytes.{Bytes}
use ban_db.Bytes.Order.{same, same→eq}
use ban_db.Wire.Put.{parse_put}
use ban_db.Service.Router.{msg_put}
use ban_db.Service.Ingest.{
  parse_device, Object, Filter, HookAction, hook_drop, hook_pass, see_timestamp, filter_handle,
}

-- A message id with its payload.
abbrev pub Frame : Type 0
Frame = Bytes × Bytes

-- The timestamp of this device in a key.
abbrev pub stamp_key : Bytes → Bytes → Option ℤ
stamp_key device key = elim (parse_device key) [
  | none ↦ none
  | some (d, ts) ↦ if same device d then some ts else none
]

-- The timestamp that a PUT has for this device.
abbrev pub stamp : Bytes → Frame → Option ℤ
stamp device (msg_id, payload) =
    if not (same msg_id msg_put)
    then none
    else elim (parse_put payload) [ none ↦ none | some (key, value) ↦ stamp_key device key ]

abbrev pub counted : Option ℤ → HookAction → List ℤ → List ℤ
counted s hook_drop rest = rest
counted none (hook_pass p) rest = rest
counted (some t) (hook_pass p) rest = t ∷ rest

abbrev pub After : Option ℤ → ℤ → Type 0
After none t = Unit
After (some last) t = pos_part last + neg_part t < pos_part t + neg_part last

-- Each is later than the one before, and the first than `last`.
abbrev pub IsRising : Option ℤ → List ℤ → Type 0
IsRising last [] = Unit
IsRising last (t ∷ ts) = After last t × IsRising (some t) ts

-- How a frame with this timestamp moves the last one of the device.
abbrev Moved : Option ℤ → Option ℤ → Option ℤ → HookAction → Type 0
Moved last last' s hook_drop = last' ≡ last
Moved last last' none (hook_pass p) = last' ≡ last
Moved last last' (some t) (hook_pass p) = After last t × (last' ≡ some t)

IsRising-counted :
    (s : Option ℤ) (a : HookAction) (rest : List ℤ) (last last' : Option ℤ)
    → Moved last last' s a
    → IsRising last' rest
    → IsRising last (counted s a rest)
IsRising-counted s hook_drop rest last last' m h = rw (sym m) h
IsRising-counted none (hook_pass p) rest last last' m h = rw (sym m) h
IsRising-counted (some t) (hook_pass p) rest last last' m h = (m.0, rw (sym m.1) h)

abbrev noted : Bytes → ℤ → Filter → Filter
noted d ts f = record f { last_ts = λ d'. if same d' d then some ts else f.last_ts d' }

noted-Moved :
    (device d : Bytes) (ts : ℤ) (f : Filter) (p : Bytes)
    → After (f.last_ts d) ts
    → Moved
        (f.last_ts device)
        ((noted d ts f).last_ts device)
        (if same device d then some ts else none)
        (hook_pass p)
noted-Moved device d ts f p h = elim (Bool-cases (same device d)) [
  | inr q ↦ rw q refl
  | inl q ↦ rw q (subst (λ x. After (f.last_ts x) ts) (sym (same→eq device d q)) h, refl)
]

see_timestamp-kept :
    (device key d : Bytes) (ts : ℤ) (f f' : Filter)
    → parse_device key ≡ some (d, ts)
    → see_timestamp key f ≡ some f'
    → (f'.drop_backward ≡ f.drop_backward)
      × ((p : Bytes)
          → Moved (f.last_ts device) (f'.last_ts device) (stamp_key device key) (hook_pass p))
unfolding see_timestamp
see_timestamp-kept device key d ts f f' q e = elim (Option-cases (f.last_ts d)) [
  | inl l ↦
      let made : noted d ts f ≡ f' = cc (rw (see_timestamp, q, l) at e) in
      rw (sym made, stamp_key, q) (refl, λ p. noted-Moved device d ts f p (rw l tt))
  | inr (last, l) ↦ elim (Bool-cases (leb_ℤ ts last)) [
    | inl back ↦ absurd (cc (rw (see_timestamp, q, l, back) at e))
    | inr later ↦
        let made : noted d ts f ≡ f' = cc (rw (see_timestamp, q, l, later) at e) in
        let lt : pos_part last + neg_part ts < pos_part ts + neg_part last = ground arith in
        rw (sym made, stamp_key, q) (refl, λ p. noted-Moved device d ts f p (rw l lt))
  ]
]

-- What see_timestamp leaves: the device's last timestamp has moved to the key's.
see_timestamp-Moved :
    (device key : Bytes) (f f' : Filter)
    → see_timestamp key f ≡ some f'
    → (f'.drop_backward ≡ f.drop_backward)
      × ((p : Bytes)
          → Moved (f.last_ts device) (f'.last_ts device) (stamp_key device key) (hook_pass p))
unfolding see_timestamp
see_timestamp-Moved device key f f' e = elim (Option-cases (parse_device key)) [
  | inl q ↦
      let same_f : f ≡ f' = cc (rw (see_timestamp, q) at e) in
      rw (sym same_f, stamp_key, q) (refl, λ p. refl)
  | inr ((d, ts), q) ↦ see_timestamp-kept device key d ts f f' q e
]

checked :
    (key : Bytes) (f : Filter)
    → f.drop_backward ≡ true
    → (if f.drop_backward then see_timestamp key f else some f) ≡ see_timestamp key f
checked key f on = ap (λ b. if b then see_timestamp key f else some f) on

module _ (unmarshal : Bytes → Option Object) (marshal : Object → Option Bytes) where
  -- The timestamps of the device in the PUTs that pass, in their order.
  abbrev pub passed : Bytes → List Frame → Filter → List ℤ
  passed device [] f = []
  passed device ((msg_id, payload) ∷ frames) f =
      let (f', action) = filter_handle unmarshal marshal msg_id payload f in
      counted (stamp device (msg_id, payload)) action (passed device frames f')

  filter_handle-Moved :
      (device msg_id payload : Bytes) (f : Filter)
      → f.drop_backward ≡ true
      → (let (f', action) = filter_handle unmarshal marshal msg_id payload f in
          (f'.drop_backward ≡ true)
          × Moved (f.last_ts device) (f'.last_ts device) (stamp device (msg_id, payload)) action)
  unfolding filter_handle
  filter_handle-Moved device msg_id payload f on = elim (Bool-cases (same msg_id msg_put)) [
    | inr p ↦ rw p (on, refl)
    | inl p ↦ elim (Option-cases (parse_put payload)) [
      | inl q ↦ rw (p, q) (on, refl)
      | inr ((key, value), q) ↦
          elim (Bool-cases
            (ltb_ℤ (pos 0) f.max_value_len && ltb_ℤ f.max_value_len (pos (length value)))) [
              | inl big ↦ rw (p, q, big) (on, refl)
              | inr fit ↦ elim (Option-cases (see_timestamp key f)) [
                | inl back ↦ rw (p, q, fit, checked key f on ∙ back) (on, refl)
                | inr (f', e) ↦
                    let m = see_timestamp-Moved device key f f' e in
                    rw (p, q, fit, checked key f on ∙ e) (m.0 ∙ on, m.1 _)
              ]
            ]
    ]
  ]

  -- Of the PUTs that a filter with dropBackward lets through, whatever else arrives between them, those
  -- of one device have ascending timestamps, all after the last one that the filter had of it.
  pub passed-IsRising :
      (device : Bytes) (frames : List Frame) (f : Filter)
      → f.drop_backward ≡ true
      → IsRising (f.last_ts device) (passed device frames f)
  passed-IsRising device [] f on = tt
  passed-IsRising device ((msg_id, payload) ∷ frames) f on =
      let (kept, moved) = filter_handle-Moved device msg_id payload f on in
      IsRising-counted (stamp device (msg_id, payload)) _ _ _ _ moved
        (passed-IsRising device frames (filter_handle unmarshal marshal msg_id payload f).0 kept)
