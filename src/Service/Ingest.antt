-- ===== src/Service/Ingest.antt =====
-- service/ingesthook/filter.go: the hook that looks at a request before the router. The frames come one at
-- a time. encoding/json is a parameter; strconv.ParseInt in base 10 and strings.LastIndexByte are written
-- out. The counters of what was dropped are left out.
pub mod Rising
use ban_db.Prelude.{
  ℕ, zero, suc, ◌+◌, ◌-◌, ◌*◌, ◌^◌, ◌==◌, ltb, leb, List, [], ◌∷◌, length, take, drop, Bool, true,
  false, ◌&&◌, not, Option, none, some, if◌then◌else◌,
}
use ban_db.Prelude.Int.{ℤ, pos, negsuc, leb_ℤ, ltb_ℤ}
use ban_db.Bytes.{Bytes}
use ban_db.Bytes.Order.{same}
use ban_db.Wire.Put.{encode_put, parse_put}
use ban_db.Service.Router.{msg_put}

unfoldable pub last_index_byte : Bytes → ℕ → Option ℕ
last_index_byte [] c = none
last_index_byte (x ∷ s) c = elim (last_index_byte s c) [
  | some i ↦ some (suc i)
  | none ↦ if x == c then some 0 else none
]

unfoldable pub parse_digits : ℕ → Bytes → Option ℕ
parse_digits n [] = some n
parse_digits n (d ∷ ds) =
    let rest = parse_digits (n * 10 + (d - 48)) ds in if leb 48 d && leb d 57 then rest else none

unfoldable pub parse_magnitude : Bytes → Option ℕ
unfolding parse_digits
parse_magnitude [] = none
parse_magnitude (d ∷ ds) = parse_digits 0 (d ∷ ds)

abbrev pub negated : ℕ → ℤ
negated zero = pos 0
negated (suc n) = negsuc n

-- strconv.ParseInt(s, 10, 64); none for an error.
unfoldable pub parse_int : Bytes → Option ℤ
unfolding parse_magnitude
parse_int [] = none
parse_int (c ∷ s) =
    if c == 45
    then elim (parse_magnitude s) [
      | none ↦ none
      | some n ↦ if leb n (2 ^ 63) then some (negated n) else none
    ]
    else elim (parse_magnitude (if c == 43 then s else c ∷ s)) [
      | none ↦ none
      | some n ↦ if ltb n (2 ^ 63) then some (pos n) else none
    ]

-- parseKey: the device and the timestamp of a key such as imu:dev0:17.
unfoldable pub parse_device : Bytes → Option (Bytes × ℤ)
unfolding last_index_byte parse_int
parse_device key = elim (last_index_byte key 58) [
  | none ↦ none
  | some i ↦
      if leb 1 i && not (i == length key - 1)
      then elim (parse_int (drop (suc i) key)) [ none ↦ none | some ts ↦ some (take i key, ts) ]
      else none
]

-- A JSON object: its fields with the bytes of their values, each name once.
abbrev pub Object : Type 0
Object = List (Bytes × Bytes)

-- The JSON text "[REDACTED]", with its quotes.
abbrev pub redacted_value : Bytes
redacted_value =
    34 ∷ (91 ∷ (82 ∷ (69 ∷ (68 ∷ (65 ∷ (67 ∷ (84 ∷ (69 ∷ (68 ∷ (93 ∷ (34 ∷ [])))))))))))

-- `_, present := m[field]; if present { m[field] = redactedValue }`
unfoldable pub hide : Bytes → Object → Object × Bool
hide field [] = ([], false)
hide field ((name, text) ∷ m) =
    let (rest, found) = hide field m in
    if same name field then ((name, redacted_value) ∷ m, true) else ((name, text) ∷ rest, found)

unfoldable pub hide_all : List Bytes → Object → Bool → Object × Bool
unfolding hide
hide_all [] m changed = (m, changed)
hide_all (field ∷ fields) m changed =
    let (m', found) = hide field m in hide_all fields m' (if found then true else changed)

-- What the hook decides; a frame that passes goes on with the given payload.
pub data HookAction : Type 0 where
  hook_drop : HookAction
  hook_pass : Bytes → HookAction

pub record Filter : Type 0 where
  pub redact_fields : List Bytes
  pub max_value_len : ℤ
  pub drop_backward : Bool
  pub last_ts : Bytes → Option ℤ

unfoldable pub new_filter : List Bytes → ℤ → Bool → Filter
new_filter fields max_len drop_back = record {
  redact_fields = fields;
  max_value_len = max_len;
  drop_backward = drop_back;
  last_ts = λ device. none;
}

-- The check of a key's timestamp: the new filter, or none for a frame that goes back.
unfoldable pub see_timestamp : Bytes → Filter → Option Filter
see_timestamp key f = elim (parse_device key) [
  | none ↦ some f
  | some (device, ts) ↦
      (let f' : Filter = record f {
        last_ts = λ d. if same d device then some ts else f.last_ts d;
      } in
        elim (f.last_ts device) [
          | none ↦ some f'
          | some last ↦ if leb_ℤ ts last then none else some f'
        ])
]

module _ (unmarshal : Bytes → Option Object) (marshal : Object → Option Bytes) where
  -- none for `changed == false`
  unfoldable pub redact : List Bytes → Bytes → Option Bytes
  unfolding hide_all
  redact [] value = none
  redact (field ∷ fields) value = elim (unmarshal value) [
    | none ↦ none
    | some m ↦
        (let (m', changed) = hide_all (field ∷ fields) m false in
          if changed then marshal m' else none)
  ]

  unfoldable pub filter_handle : Bytes → Bytes → Filter → Filter × HookAction
  unfolding redact see_timestamp
  filter_handle msg_id payload f =
      if not (same msg_id msg_put) then (f, hook_pass payload) else elim (parse_put payload) [
        | none ↦ (f, hook_drop)
        | some (key, value) ↦
            if ltb_ℤ (pos 0) f.max_value_len && ltb_ℤ f.max_value_len (pos (length value))
            then (f, hook_drop)
            else elim (if f.drop_backward then see_timestamp key f else some f) [
              | none ↦ (f, hook_drop)
              | some f' ↦ (
                f',
                hook_pass (elim (redact f.redact_fields value) [
                  | none ↦ payload
                  | some value' ↦ encode_put key value'
                ]),
              )
            ]
      ]
