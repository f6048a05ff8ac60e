-- ===== src/Client/Begins.antt =====
-- The beginnings of requests and streams in stdiobus/client.py keep the invariant of the requests.
use stdiobus_python.Base.{
  ℕ, String, ◌≡◌, refl, true, false, Option, Bool-cases, arith, inl, inr, nat-Eq,
}
use stdiobus_python.Base.Int.{ℤ}
use stdiobus_python.Base.Dict.{values}
use stdiobus_python.Json.{Fields}
use stdiobus_python.Types.Protocol.{RequestOptions}
use stdiobus_python.Client.Pending.{for_future, for_stream}
use stdiobus_python.Client.State.{Client, Runtime}
use stdiobus_python.Client.Bus.{
  Bus, BackendOps, Sent, returned, raised, ready, send, add_pending, drop_pending,
}
use stdiobus_python.Client.Requests.{Begun, after_send, begin_request}
use stdiobus_python.Client.Stream.{Stream, active_stream, after_stream_send, start_stream}
use stdiobus_python.Client.Objects.{streams-any_stream}
use stdiobus_python.Client.Table.{put-Inv, remove-Inv}
use stdiobus_python.Client.Valid.{IsValid}

pub add_future-IsValid :
    (c : Client) (id : String) → IsValid c → IsValid (add_pending c id for_future)
unfolding add_pending for_future
add_future-IsValid c id v = put-Inv v id _ refl (λ e. cc)

pub add_stream-IsValid :
    (c : Client) (id : String)
    → active_stream c ≡ false
    → IsValid c
    → IsValid (add_pending c id for_stream)
unfolding add_pending for_stream
add_stream-IsValid c id free v =
    put-Inv v id _ refl (λ e. streams-any_stream c.pending (values c.pending_requests) free)

pub drop_pending-IsValid : (c : Client) (id : String) → IsValid c → IsValid (drop_pending c id)
unfolding drop_pending
drop_pending-IsValid c id v = remove-Inv v id

module _ {B : Type 0} (ops : BackendOps B) where
  pub client-send : (b : Bus B) (m : String) → (send ops b m).0.client ≡ b.client
  unfolding send
  client-send b m = ground arith

after_send-IsValid :
    {B : Type 0} (r : Bus B × Sent) (id : String) (next : Begun)
    → IsValid r.0.client
    → IsValid (after_send r id next).0.client
unfolding after_send
after_send-IsValid (b, returned true) id next v = v
after_send-IsValid (b, returned false) id next v = drop_pending-IsValid b.client id v
after_send-IsValid (b, raised e) id next v = drop_pending-IsValid b.client id v

after_stream_send-IsValid :
    {B : Type 0} (r : Bus B × Sent) (s : Stream)
    → IsValid r.0.client
    → IsValid (after_stream_send r s).0.client
unfolding after_stream_send
after_stream_send-IsValid (b, returned true) s v = v
after_stream_send-IsValid (b, returned false) s v = drop_pending-IsValid b.client s.msg_id v
after_stream_send-IsValid (b, raised e) s v = drop_pending-IsValid b.client s.msg_id v

module _ {B : Type 0} (rt : Runtime) (ops : BackendOps B) where
  pub begin_request-IsValid :
      (b : Bus B) (id method : String) (params : Option Fields) (timeout : Option ℤ)
      (session : Option String) (opts : RequestOptions)
      → IsValid b.client
      → IsValid (begin_request rt ops b id method params timeout session opts).0.client
  unfolding begin_request
  begin_request-IsValid b id method params timeout session opts v =
      elim (Bool-cases (ready ops b)) [
        | inr e ↦ rw e v
        | inl e ↦ rw e (
            after_send-IsValid (send ops _ _) id _
              (rw (client-send ops _ _) (add_future-IsValid b.client id v)))
      ]

  pub start_stream-IsValid :
      (b : Bus B) (now : ℕ) (id method : String) (params : Option Fields) (timeout : Option ℤ)
      (session : Option String) (opts : RequestOptions)
      → IsValid b.client
      → IsValid (start_stream rt ops b now id method params timeout session opts).0.client
  unfolding start_stream
  start_stream-IsValid b now id method params timeout session opts v =
      elim (Bool-cases (ready ops b)) [
        | inr e ↦ rw e v
        | inl e ↦ rw e (elim (Bool-cases (active_stream b.client)) [
          | inl busy ↦ rw busy v
          | inr free ↦ rw free (
              after_stream_send-IsValid (send ops _ _) _
                (rw (client-send ops _ _) (add_stream-IsValid b.client id free v)))
        ])
      ]
