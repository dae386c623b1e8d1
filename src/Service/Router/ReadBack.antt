-- ===== src/Service/Router/ReadBack.antt =====
-- What a GET answers after a PUT or a DEL (service/router.go), in the standalone mode.
use ban_db.Prelude.{
  ℕ, ◌^◌, ◌<◌, [], ◌++◌, length, Bool, true, false, ◌&&◌, Option, none, some, if◌then◌else◌, ◌≡◌,
  refl, sym, ◌∙◌, ap,
}
use mathlib.Core.List.{append-nil}
use ban_db.Bytes.{Bytes}
use ban_db.Bytes.Order.{same, cmp}
use ban_db.Bytes.Fixed.{put_u32_le}
use ban_db.Storage.Format.{Format}
use ban_db.Storage.MemTable.{MemTable, get, put, delete}
use ban_db.Storage.MemTable.Valid.{IsValid}
use ban_db.Storage.MemTable.History.{Event, step, promise, get-step}
use ban_db.Wire.Put.{new_kv_data, parse_key, parse_put-new_kv_data, parse_key-encode}
use ban_db.Wire.Scan.{Predicate}
use ban_db.Service.{Command, write_standalone}
use ban_db.Service.Router.{
  Answer, silent, waiting, send, send_ok, get_reply, msg_put, msg_get, msg_delete, KvServer,
  handle_write, handle_put, handle_get, handle_delete, handle,
}

-- [keyLen u32 LE][key]
abbrev pub key_frame : Bytes → Bytes
key_frame key = put_u32_le (length key) ++ key

parse_key-frame : (key : Bytes) → length key < 2 ^ 32 → parse_key (key_frame key) ≡ some key
parse_key-frame key h = rw (append-nil key) at (parse_key-encode key [] h)

-- The request was answered by a message.
abbrev pub is_sent : Answer → Bool
is_sent silent = false
is_sent waiting = false
is_sent (send id payload) = true

is_sent-answer : (b : Bool) → is_sent (if b then send_ok else waiting) ≡ b
unfolding send_ok
is_sent-answer true = refl
is_sent-answer false = refl

module _ (fmt : Format) (max_size : ℕ) (eval : Predicate → Bytes → Bool) where
  open fmt use {File, Fits}

  handle-put :
      (key value : Bytes) (height : ℕ) (s : KvServer fmt max_size eval)
      → length key < 2 ^ 32
      → length value < 2 ^ 32
      → handle fmt max_size eval msg_put (new_kv_data key value) height s
        ≡ handle_write fmt max_size eval (Command.put_command key (some value)) height s
  unfolding handle same cmp handle_put
  handle-put key value height s hk hv =
      rw (handle, handle_put, (parse_put-new_kv_data key value hk hv).0)

  handle-delete :
      (key : Bytes) (height : ℕ) (s : KvServer fmt max_size eval)
      → length key < 2 ^ 32
      → handle fmt max_size eval msg_delete (key_frame key) height s
        ≡ handle_write fmt max_size eval (Command.delete_command key) height s
  unfolding handle same cmp handle_delete
  handle-delete key height s hk = rw (handle, handle_delete, parse_key-frame key hk)

  handle-get :
      (key : Bytes) (height : ℕ) (s : KvServer fmt max_size eval)
      → length key < 2 ^ 32
      → handle fmt max_size eval msg_get (key_frame key) height s ≡ (s, get_reply (get fmt s.1 key))
  unfolding handle same cmp handle_get
  handle-get key height s hk = rw (handle, handle_get, parse_key-frame key hk)

  put_written :
      (key value : Bytes) (height : ℕ) (s : KvServer fmt max_size eval)
      → ((handle_write fmt max_size eval (Command.put_command key (some value)) height s).0.1
          ≡ (put fmt max_size s.1 height key (some value)).0)
        × ((handle_write fmt max_size eval (Command.put_command key (some value)) height s).1
            ≡ (if (put fmt max_size s.1 height key (some value)).1 then send_ok else waiting))
  unfolding handle_write write_standalone
  put_written key value height s = (refl, refl)

  delete_written :
      (key : Bytes) (height : ℕ) (s : KvServer fmt max_size eval)
      → ((handle_write fmt max_size eval (Command.delete_command key) height s).0.1
          ≡ (delete fmt max_size s.1 height key).0)
        × ((handle_write fmt max_size eval (Command.delete_command key) height s).1
            ≡ (if (delete fmt max_size s.1 height key).1 then send_ok else waiting))
  unfolding handle_write write_standalone
  delete_written key height s = (refl, refl)

  got :
      (e : Event) (j : Bytes) (m : MemTable File) (done : Bool) (key : Bytes) (value : Option Bytes)
      (r : KvServer fmt max_size eval × Answer)
      → r.0.1 ≡ step fmt max_size e m
      → r.1 ≡ (if done then send_ok else waiting)
      → get fmt (step fmt max_size e m) j ≡ (if done && same key j then value else get fmt m j)
      → get fmt r.0.1 j ≡ (if is_sent r.1 && same key j then value else get fmt m j)
  got e j m done key value r state answer g =
      ap (λ n. get fmt n j) state
      ∙ g
      ∙ ap (λ b. if b && same key j then value else get fmt m j)
          (sym (ap is_sent answer ∙ is_sent-answer done))

  -- After a PUT that was answered a GET of the same key answers with the value, and after a DEL that was
  -- answered with an error; a GET of any other key, or after a write that still waits for credit, answers
  -- as before. The payloads are those that a client packs, with lengths under 4 GiB; the table is valid.
  pub handle-read_back :
      (key value j : Bytes) (height h : ℕ) (s : KvServer fmt max_size eval)
      → length key < 2 ^ 32
      → length value < 2 ^ 32
      → length j < 2 ^ 32
      → 0 < height
      → Fits key (some value)
      → Fits key none
      → IsValid fmt s.1
      → (let (after, answer) = handle fmt max_size eval msg_put (new_kv_data key value) height s in
          (handle fmt max_size eval msg_get (key_frame j) h after).1
          ≡ get_reply (if is_sent answer && same key j then some value else get fmt s.1 j))
        × (let (after, answer) = handle fmt max_size eval msg_delete (key_frame key) height s in
            (handle fmt max_size eval msg_get (key_frame j) h after).1
            ≡ get_reply (if is_sent answer && same key j then none else get fmt s.1 j))
  unfolding step promise
  handle-read_back key value j height h s hk hv hj up fit fit₀ v =
      let p = handle-put key value height s hk hv in
      let d = handle-delete key height s hk in
      let w = put_written key value height s in
      let x = delete_written key height s in
      (
        ap (λ r. r.1)
              (handle-get j h (handle fmt max_size eval msg_put (new_kv_data key value) height s).0
                hj)
            ∙ ap get_reply (
                got (Event.put_event height key (some value)) j s.1
                  (put fmt max_size s.1 height key (some value)).1 key (some value)
                  (handle fmt max_size eval msg_put (new_kv_data key value) height s)
                  (ap (λ r. r.0.1) p ∙ w.0) (ap (λ r. r.1) p ∙ w.1)
                  (get-step fmt max_size (Event.put_event height key (some value)) s.1 j
                    (up, fit, fit₀) v)),
        ap (λ r. r.1)
              (handle-get j h (handle fmt max_size eval msg_delete (key_frame key) height s).0 hj)
            ∙ ap get_reply (
                got (Event.delete_event height key) j s.1 (delete fmt max_size s.1 height key).1 key
                  none (handle fmt max_size eval msg_delete (key_frame key) height s)
                  (ap (λ r. r.0.1) d ∙ x.0) (ap (λ r. r.1) d ∙ x.1)
                  (get-step fmt max_size (Event.delete_event height key) s.1 j (up, fit₀, fit₀) v)),
      )
