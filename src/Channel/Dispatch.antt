-- ===== src/Channel/Dispatch.antt =====
-- Channel: the requests change the events as they should, and `handleEvent` calls what has come.
use network_ydxlib.Base.{◌≡◌, Bool, true, false, ◌&&◌, ◌||◌, not, List, [], ◌∷◌, arith}
use network_ydxlib.Channel.{Channel, Callback, reads, writes, closes, errors, handle_event}

abbrev pub calls_it : Callback → List Callback → Bool
calls_it reads (reads ∷ cs) = true
calls_it writes (writes ∷ cs) = true
calls_it closes (closes ∷ cs) = true
calls_it errors (errors ∷ cs) = true
calls_it cb [] = false
calls_it cb (c ∷ cs) = calls_it cb cs

-- `handleEvent` calls the close callback for a hang-up with nothing left to read, the error callback
-- for an error, the read callback where there is something to read or the peer has closed its end,
-- and the write callback where there is room to write; each only if it is set, and no other.
pub handle_event-calls :
    (c : Channel)
    → let r = c.revents in
      let cs = handle_event c in
      (calls_it closes cs ≡ (c.callbacks.on_close && (r.epollhup && not r.epollin)))
      × (calls_it errors cs ≡ (c.callbacks.on_error && r.epollerr))
      × (calls_it reads cs ≡ (c.callbacks.on_read && (r.epollin || r.epollpri || r.epollrdhup)))
      × (calls_it writes cs ≡ (c.callbacks.on_write && r.epollout))
unfolding handle_event
handle_event-calls c = ground arith
