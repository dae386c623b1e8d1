-- ===== src/Wire/Frame.antt =====
-- network/banNet/DataPack.go and message.go: a frame is [dataLen u32 LE][msgIDLen u16 LE][msgID]
-- [data]. `read_frame` is one round of the loop of StartReader in network/banNet/connection.go: the
-- head by `unpack`, then the message id and the data, each only when its length is positive.
use mathlib.Core.List.{append_assoc}
use mathlib.Core.Path.{subst}
use ban_db.Prelude.{
  ℕ, ◌^◌, ◌≤◌, ◌<◌, ◌%◌, [], ◌∷◌, ◌++◌, ◌≡◌, ◌⊎◌, refl, ap, arith, length, ltb, ◌&&◌, Option, none,
  some, if◌then◌else◌,
}
use ban_db.Bytes.{Bytes}
use ban_db.Bytes.Fixed.{slice, put_u16_le, put_u32_le, u16_le, u32_le}
use ban_db.Bytes.Reader.{read_full, read_full-append}

pub record Message : Type 0 where
  pub id : Bytes
  pub id_len : ℕ
  pub data_len : ℕ
  pub payload : Bytes

-- `DataLen: uint32(len(data))`
unfoldable pub new_message : Bytes → Bytes → Message
new_message id data' = record {
  id = id;
  id_len = 0;
  data_len = length data' % 2 ^ 32;
  payload = data';
}

abbrev pub head_len : ℕ
head_len = 6

-- `none` is the error "msgID too long"
unfoldable pub pack : Message → Option Bytes
pack m =
    if ltb 0xFFFF (length m.id)
    then none
    else some (put_u32_le m.data_len ++ (put_u16_le (length m.id) ++ (m.id ++ m.payload)))

-- `max` is config.G.MaxPackageSize; 0 switches the test off.
unfoldable pub unpack : ℕ → Bytes → Option Message
unpack max d =
    let data_len = u32_le (slice d 0 4) in
    if ltb 0 max && ltb max data_len
    then none
    else some (record { id = []; id_len = u16_le (slice d 4 6); data_len = data_len; payload = [] })

read_part : ℕ → Bytes → Option (Bytes × Bytes)
read_part n s = if ltb 0 n then read_full n s else some ([], s)

infixl 5 ◌>>=◌
abbrev pub ◌>>=◌ {ℓ κ} : {A : Type ℓ} {B : Type κ} → Option A → (A → Option B) → Option B
none >>= f = none
some a >>= f = f a

unfoldable pub read_frame : ℕ → Bytes → Option (Message × Bytes)
unfolding read_part
read_frame max s = do
  (head, s₁) ← read_full head_len s
  msg ← unpack max head
  (id, s₂) ← read_part msg.id_len s₁
  (body, s₃) ← read_part msg.data_len s₂
  some (record msg { id = id; payload = body }, s₃)

read_part-append : (x r : Bytes) → read_part (length x) (x ++ r) ≡ some (x, r)
unfolding read_part
read_part-append [] r = refl
read_part-append (b ∷ x) r = ground (arith, read_full-append (b ∷ x) r)

-- The fields that the reader of a frame has: those of the message, and its id's length.
abbrev pub received : Bytes → Bytes → Message
received id body = record { id = id; id_len = length id; data_len = length body; payload = body }

unpack-head :
    (max : ℕ) (id body : Bytes)
    → length id < 2 ^ 16
    → length body < 2 ^ 32
    → (max ≡ 0) ⊎ (length body ≤ max)
    → unpack max (put_u32_le (length body) ++ put_u16_le (length id))
      ≡ some (record { id = []; id_len = length id; data_len = length body; payload = [] })
unfolding unpack slice put_u32_le put_u16_le u32_le u16_le
unpack-head max id body hi hb room = ground arith

module _ (max : ℕ) (id body rest : Bytes) where
  abbrev head_of : Bytes
  head_of = put_u32_le (length body) ++ put_u16_le (length id)

  abbrev wire : Bytes
  wire = put_u32_le (length body) ++ (put_u16_le (length id) ++ (id ++ body))

  wire-append : wire ++ rest ≡ head_of ++ (id ++ (body ++ rest))
  unfolding put_u32_le put_u16_le
  wire-append = ap (λ t. head_of ++ t) (append_assoc id body rest)

  length-head_of : length head_of ≡ 6
  unfolding put_u32_le put_u16_le
  length-head_of = refl

  read_head : read_full 6 (wire ++ rest) ≡ some (head_of, id ++ (body ++ rest))
  read_head = rw wire-append (
      subst
        (λ n.
          read_full n (head_of ++ (id ++ (body ++ rest))) ≡ some (head_of, id ++ (body ++ rest)))
        length-head_of (read_full-append head_of _))

-- A message that is packed and then read from the stream is the message that was sent, whatever
-- follows it, and exactly what follows is left: the framing never gets out of step. The id has at
-- most 65535 bytes, the data fewer than 2^32 and, where a limit is set, no more than that.
pub read_frame-pack :
    (max : ℕ) (id body rest : Bytes)
    → length id < 2 ^ 16
    → length body < 2 ^ 32
    → (max ≡ 0) ⊎ (length body ≤ max)
    → (frame : Bytes) × (pack (new_message id body) ≡ some frame)
      × (read_frame max (frame ++ rest) ≡ some (received id body, rest))
unfolding pack new_message read_frame
read_frame-pack max id body rest hi hb room =
    let same_len : length body % 2 ^ 32 ≡ length body = omega arith in
    (
      wire max id body rest,
      ground (arith, same_len),
      rw (
        read_head max id body rest,
        unpack-head max id body hi hb room,
        read_part-append id (body ++ rest),
        read_part-append body rest,
      ),
    )
