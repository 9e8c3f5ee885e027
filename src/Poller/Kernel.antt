-- ===== src/Poller/Kernel.antt =====
-- What epoll_ctl(2) documents of an interest list, as a reading of the calls made: a descriptor is
-- added if it is not there, and changed or deleted if it is; any other call fails and changes
-- nothing.
use network_ydxlib.Base.{
  ℕ, ◌≡◌, Bool, true, false, List, [], ◌∷◌, ◌==◌, if◌then◌else◌, Option, some, none,
}
use network_ydxlib.Channel.{Mask}
use network_ydxlib.Poller.{CtlOp, ctl_add, ctl_mod, ctl_del, Ctl}

unfoldable pub after : CtlOp → Mask → Option Mask → Option Mask
after ctl_add e none = some e
after ctl_add e (some o) = some o
after ctl_mod e none = none
after ctl_mod e (some o) = some e
after ctl_del e o = none

unfoldable pub accepts : CtlOp → Option Mask → Bool
accepts ctl_add none = true
accepts ctl_add (some o) = false
accepts ctl_mod none = false
accepts ctl_mod (some o) = true
accepts ctl_del none = false
accepts ctl_del (some o) = true

-- The events that a descriptor is watched for.
unfoldable pub interest : ℕ → List Ctl → Option Mask
unfolding after
interest fd [] = none
interest fd (c ∷ cs) = if c.fd == fd then after c.op c.events (interest fd cs) else interest fd cs

-- No call of the list fails.
abbrev pub IsAccepted : List Ctl → Type 0
IsAccepted [] = Unit {0}
IsAccepted (c ∷ cs) = (accepts c.op (interest c.fd cs) ≡ true) × IsAccepted cs
