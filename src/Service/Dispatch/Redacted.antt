-- ===== src/Service/Dispatch/Redacted.antt =====
-- What a PUT does that goes through the ingest filter and the router, in the standalone mode.
use ban_db.Prelude.{
  ℕ, ◌^◌, ◌<◌, List, length, Bool, true, false, ◌&&◌, ◌||◌, not, Option, none, some, if◌then◌else◌,
  ◌≡◌, refl, sym, ap, arith, Bool-cases, Option-cases, inl, inr,
}
use ban_db.Prelude.Int.{pos, leb_ℤ, ltb_ℤ}
use ban_db.Bytes.{Bytes}
use ban_db.Bytes.Order.{same, cmp}
use ban_db.Storage.Format.{Format}
use ban_db.Wire.Put.{new_kv_data, encode_put, parse_put, parse_put-new_kv_data}
use ban_db.Wire.Scan.{Predicate}
use ban_db.Service.{Command}
use ban_db.Service.Router.{Answer, silent, msg_put, KvServer, handle_write, handle_put, handle}
use ban_db.Service.Ingest.{
  parse_device, Object, Filter, hook_drop, hook_pass, see_timestamp, redact, filter_handle,
}
use ban_db.Service.Dispatch.{is_registered, send_dropped, pre_handle, do_msg_handle}

-- The timestamp of the key, if it has one, is later than the last of its device, if there is one.
abbrev pub is_newer : Bytes → Filter → Bool
is_newer key f = elim (parse_device key) [
  | none ↦ true
  | some (device, ts) ↦ elim (f.last_ts device) [ none ↦ true | some last ↦ ltb_ℤ last ts ]
]

abbrev pub is_accepted : Bytes → Bytes → Filter → Bool
is_accepted key value f =
    not (ltb_ℤ (pos 0) f.max_value_len && ltb_ℤ f.max_value_len (pos (length value)))
    && (not f.drop_backward || is_newer key f)

abbrev is_some : Option Filter → Bool
is_some none = false
is_some (some f) = true

see_timestamp-is_newer : (key : Bytes) (f : Filter) → is_some (see_timestamp key f) ≡ is_newer key f
unfolding see_timestamp
see_timestamp-is_newer key f = elim (Option-cases (parse_device key)) [
  | inl p ↦ rw (see_timestamp, is_newer, p) refl
  | inr ((device, ts), p) ↦ elim (Option-cases (f.last_ts device)) [
    | inl l ↦ rw (see_timestamp, is_newer, p, l) refl
    | inr (last, l) ↦ elim (Bool-cases (leb_ℤ ts last)) [
      | inl back ↦
          let old : ltb_ℤ last ts ≡ false = ground arith in
          rw (see_timestamp, is_newer, p, l, back, old) refl
      | inr later ↦
          let new : ltb_ℤ last ts ≡ true = ground arith in
          rw (see_timestamp, is_newer, p, l, later, new) refl
    ]
  ]
]

-- The check of the timestamp, if it is made.
abbrev checked : Bytes → Filter → Option Filter
checked key f = if f.drop_backward then see_timestamp key f else some f

checked-is_newer :
    (key : Bytes) (f : Filter) (b : Bool)
    → is_some (if b then see_timestamp key f else some f) ≡ (not b || is_newer key f)
checked-is_newer key f true = see_timestamp-is_newer key f
checked-is_newer key f false = refl

abbrev is_long : Bytes → Filter → Bool
is_long value f = ltb_ℤ (pos 0) f.max_value_len && ltb_ℤ f.max_value_len (pos (length value))

module _ (unmarshal : Bytes → Option Object) (marshal : Object → Option Bytes) where
  -- The value with the fields hidden, where the hook changes it.
  abbrev pub redacted : List Bytes → Bytes → Bytes
  redacted fields value = elim (redact unmarshal marshal fields value) [
    | none ↦ value
    | some value' ↦ value'
  ]

  abbrev passed_on : Bytes → Bytes → Filter → Bytes
  passed_on key value f = elim (redact unmarshal marshal f.redact_fields value) [
    | none ↦ new_kv_data key value
    | some value' ↦ encode_put key value'
  ]

  parse_put-passed_on :
      (key value : Bytes) (f : Filter)
      → length key < 2 ^ 32
      → length value < 2 ^ 32
      → length (redacted f.redact_fields value) < 2 ^ 32
      → parse_put (passed_on key value f) ≡ some (key, redacted f.redact_fields value)
  parse_put-passed_on key value f hk hv hr =
      elim (Option-cases (redact unmarshal marshal f.redact_fields value)) [
        | inl q ↦ rw (passed_on, redacted, q) (parse_put-new_kv_data key value hk hv).0
        | inr (v, q) ↦
            rw (passed_on, redacted, q) (parse_put-new_kv_data key v hk (rw (redacted, q) at hr)).1
      ]

  filter_handle-put :
      (key value : Bytes) (f : Filter)
      → length key < 2 ^ 32
      → length value < 2 ^ 32
      → (filter_handle unmarshal marshal msg_put (new_kv_data key value) f).1
        ≡ (if is_accepted key value f then hook_pass (passed_on key value f) else hook_drop)
  unfolding filter_handle same cmp
  filter_handle-put key value f hk hv =
      let parsed = (parse_put-new_kv_data key value hk hv).0 in
      let fresh = checked-is_newer key f f.drop_backward in
      elim (Bool-cases (is_long value f)) [
        | inl long ↦ rw (filter_handle, parsed, is_accepted, long) refl
        | inr fit ↦ elim (Option-cases (checked key f)) [
          | inl c ↦ rw (filter_handle, parsed, is_accepted, fit, c, sym (rw c at fresh)) refl
          | inr (f', c) ↦ rw (filter_handle, parsed, is_accepted, fit, c, sym (rw c at fresh)) refl
        ]
      ]

  module _ (fmt : Format) (max_size : ℕ) (eval : Predicate → Bytes → Bool) where
    handle-passed_on :
        (key value : Bytes) (height : ℕ) (f : Filter) (s : KvServer fmt max_size eval)
        → length key < 2 ^ 32
        → length value < 2 ^ 32
        → length (redacted f.redact_fields value) < 2 ^ 32
        → handle fmt max_size eval msg_put (passed_on key value f) height s
          ≡ handle_write fmt max_size eval
              (Command.put_command key (some (redacted f.redact_fields value)))
              height
              s
    unfolding handle handle_put same cmp
    handle-passed_on key value height f s hk hv hr =
        rw (handle, handle_put, parse_put-passed_on key value f hk hv hr) refl

    -- A PUT on a registered route, behind the ingest filter: if its value is not over the limit and, where
    -- the filter looks at timestamps, its key is later than the device's last one, the server writes the
    -- key with the redacted value and answers as for a plain write; otherwise it is left as it was and
    -- the answer is `dropped`. The lengths are under 4 GiB.
    pub do_msg_handle-put :
        (routes : List Bytes) (key value : Bytes) (height : ℕ) (f : Filter)
        (s : KvServer fmt max_size eval)
        → is_registered routes msg_put ≡ true
        → length key < 2 ^ 32
        → length value < 2 ^ 32
        → length (redacted f.redact_fields value) < 2 ^ 32
        → (let (after, answer) =
              do_msg_handle
                (some (filter_handle unmarshal marshal))
                fmt
                max_size
                eval
                routes
                msg_put
                (new_kv_data key value)
                height
                (f, s) in
            (after.1, answer))
          ≡ (if is_accepted key value f
              then handle_write fmt max_size eval
                  (Command.put_command key (some (redacted f.redact_fields value)))
                  height
                  s
              else (s, send_dropped))
    unfolding do_msg_handle pre_handle
    do_msg_handle-put routes key value height f s on hk hv hr =
        let decided = filter_handle-put key value f hk hv in
        elim (Bool-cases (is_accepted key value f)) [
          | inl a ↦
              rw (do_msg_handle, pre_handle, on, rw a at decided, a)
                (handle-passed_on key value height f s hk hv hr)
          | inr a ↦
              rw (do_msg_handle, pre_handle, on, rw a at decided, a)
                (ap
                  (λ x. (
                    s,
                    elim x as (λ y. Answer) [ hook_drop ↦ send_dropped | hook_pass p ↦ silent ],
                  ))
                  (rw a at decided))
        ]
