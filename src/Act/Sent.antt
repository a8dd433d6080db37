-- ===== src/Act/Sent.antt =====
-- What was sent on the websocket.
use diplom_code.Base.{String, Option, none, some, List, [], ◌∷◌, ◌++◌, All}
use diplom_code.Py.{Runtime, Fields}
use diplom_code.Act.{World, count, send, sent_by, remember, observe, read_config}
use diplom_code.Act.Keeps.{Kept}
use diplom_code.Config.{Disk}

module _ ⦃rt : Runtime⦄ where
  -- Every message sent so far is one of these.
  abbrev pub AllSent : (Fields → Type 0) → World → Type 0
  AllSent M w = All M w.1.sent

  All-append :
      (M : Fields → Type 0) (xs : List Fields) (x : Fields) → All M xs → M x → All M (xs ++ x ∷ [])
  All-append M [] x h m = (m, tt)
  All-append M (y ∷ xs) x (k, h) m = (k, All-append M xs x h m)

  sent_by-AllSent :
      (M : Fields → Type 0) (o : Option String) (msg : Fields) (w : World)
      → M msg
      → AllSent M w
      → AllSent M (sent_by o msg w).1
  sent_by-AllSent M none msg (g, s) m h = All-append M s.sent msg h m
  sent_by-AllSent M (some e) msg (g, s) m h = h

  pub sent_kept : (M : Fields → Type 0) → Kept (AllSent M) M
  unfolding count send remember observe read_config
  sent_kept M = record {
    counting = λ k w h. h;
    sending = λ msg w m h. sent_by-AllSent M (w.1.wire w.1.tried) msg w m h;
    remembering = λ p w h. h;
    observing = λ name ms w h. h;
    calling = λ c w h. h;
  }

  pub read-AllSent :
      (M : Fields → Type 0) (d : Disk) (w : World) → AllSent M w → AllSent M (read_config d w).1
  unfolding read_config
  read-AllSent M d w h = h
