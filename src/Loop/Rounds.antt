-- ===== src/Loop/Rounds.antt =====
-- The rounds of `poll`: which channel sees which events, and room for more events.
use network_ydxlib.Base.{
  ℕ, ◌≤◌, ◌<◌, ◌≡◌, refl, true, List, [], ◌∷◌, ◌==◌, if◌then◌else◌, Option, none, some, arith, ◌∙◌,
}
use network_ydxlib.Channel.{Channel, Mask, set_revents, Callback}
use network_ydxlib.Loop.{Loop, Wait, fill_active_channels, grow, poll, run_one_poll}

-- The events that a round brings for the channel at address `p`: those of its last entry.
unfoldable pub events_for : ℕ → List (ℕ × Mask) → Option Mask
events_for p [] = none
events_for p ((q, e) ∷ evs) = elim (events_for p evs) [
  | none ↦ if q == p then some e else none
  | some later ↦ some later
]

unfoldable pub seen : Option Mask → Channel → Channel
seen none c = c
seen (some e) c = set_revents c e

-- A round stores with each channel the events that came for it, and changes nothing else.
pub fill_active_channels_lem :
    (evs : List (ℕ × Mask)) (chans : ℕ → Channel) (p : ℕ)
    → fill_active_channels evs chans p ≡ seen (events_for p evs) (chans p)
unfolding fill_active_channels events_for seen
fill_active_channels_lem [] chans p = refl
fill_active_channels_lem ((q, e) ∷ evs) chans p = ground (
  arith,
  fill_active_channels_lem evs (λ j. if q == j then set_revents (chans q) e else chans j) p,
)

-- The event array never loses room, and after a round that filled it there is room for more.
pub grow-lt : (n size : ℕ) → n ≤ size → 0 < size → (n < grow n size) × (size ≤ grow n size)
unfolding grow
grow-lt n size h pos = ground arith

-- After `quit` no round does anything.
pub poll-quit :
    {F : Type 0} (adds : F → List F) (handle : ℕ → Callback → Loop F → Loop F) (ws : List Wait)
    (l : Loop F)
    → l.quitting ≡ true
    → poll adds handle ws l ≡ l
unfolding poll
poll-quit adds handle [] l q = refl
poll-quit adds handle (w ∷ ws) l q = one q ∙ poll-quit adds handle ws l q
  where
    one : l.quitting ≡ true → poll adds handle (w ∷ ws) l ≡ poll adds handle ws l
    one q = rw (q, run_one_poll)
