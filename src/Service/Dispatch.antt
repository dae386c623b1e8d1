-- ===== src/Service/Dispatch.antt =====
-- DoMsgHandle of network/banNet/msgHandle.go over the router with its hook (service/router.go): a request
-- from the worker that takes it to its answer. The hook's own state is a parameter; there is no PostHandle.
pub mod Redacted
use ban_db.Prelude.{ℕ, List, [], ◌∷◌, Bool, true, false, ◌||◌, Option, none, some, if◌then◌else◌}
use ban_db.Bytes.{Bytes}
use ban_db.Bytes.Order.{same}
use ban_db.Storage.Format.{Format}
use ban_db.Wire.Scan.{Predicate}
use ban_db.Service.Router.{Answer, silent, send, msg_resp_err, status_payload, KvServer, handle}
use ban_db.Service.Ingest.{HookAction, hook_drop, hook_pass}

abbrev pub status_dropped : Bytes
status_dropped = b'd' ∷ (b'r' ∷ (b'o' ∷ (b'p' ∷ (b'p' ∷ (b'e' ∷ (b'd' ∷ []))))))

unfoldable pub send_dropped : Answer
unfolding status_payload
send_dropped = send msg_resp_err (status_payload status_dropped)

-- The map of the routes, all of which go to the one router.
unfoldable pub is_registered : List Bytes → Bytes → Bool
is_registered [] msg_id = false
is_registered (id ∷ ids) msg_id = same id msg_id || is_registered ids msg_id

module _ {F : Type 0} (hook : Option (Bytes → Bytes → F → F × HookAction)) where
  -- With what is sent at once.
  unfoldable pub pre_handle : Bytes → Bytes → F → F × HookAction × Answer
  unfolding send_dropped
  pre_handle msg_id payload f = elim hook [
    | none ↦ (f, hook_pass payload, silent)
    | some run ↦
        (let (f', action) = run msg_id payload f in
          (f', action, elim action [ hook_drop ↦ send_dropped | hook_pass p ↦ silent ]))
  ]

  module _ (fmt : Format) (max_size : ℕ) (eval : Predicate → Bytes → Bool) where
    unfoldable pub do_msg_handle :
        List Bytes
        → Bytes
        → Bytes
        → ℕ
        → F × KvServer fmt max_size eval
        → (F × KvServer fmt max_size eval) × Answer
    unfolding is_registered pre_handle
    do_msg_handle routes msg_id payload height (f, s) =
        let (f', action, sent) = pre_handle msg_id payload f in
        if is_registered routes msg_id
        then elim action [
          | hook_drop ↦ ((f', s), sent)
          | hook_pass p ↦
              (let (s', answer) = handle fmt max_size eval msg_id p height s in ((f', s'), answer))
        ]
        else ((f, s), silent)
