-- ===== src/AsyncLog/Sound.antt =====
-- AsyncLogging: what holds of its buffers, and what `append` does.
use network_ydxlib.Base.{
  ℕ, zero, suc, ◌+◌, ◌≤◌, ◌<◌, ◌≡◌, inl, inr, refl, sym, ap, ap₂, ◌∙◌, Bool-cases, true, false,
  Option, none, some, List, [], ◌∷◌, ◌++◌, append_assoc, append-nil, ltb, if◌then◌else◌, arith,
  length, take, length-append,
}
use network_ydxlib.Log.{FixedBuffer, avail, append}
use network_ydxlib.AsyncLog.{
  AsyncLogging, Phase, testing, waiting, writing, finished, large_buffer, or_new, append_line,
  texts,
}

abbrev pub IsLarge : FixedBuffer → Type 0
IsLarge b = (b.size ≡ large_buffer) × (length b.text ≤ large_buffer)

abbrev pub AreLarge : List FixedBuffer → Type 0
AreLarge [] = Unit
AreLarge (b ∷ bs) = IsLarge b × AreLarge bs

abbrev pub IsEmptyIf : Option FixedBuffer → Type 0
IsEmptyIf none = Unit
IsEmptyIf (some b) = (b.size ≡ large_buffer) × (b.text ≡ [])

-- How many buffers a null pointer calls for.
abbrev pub missing : Option FixedBuffer → ℕ
missing none = 1
missing (some b) = 0

-- Between its rounds the writing thread has both spare buffers; while it writes it has at least as
-- many buffers to write as spare ones are missing.
abbrev pub Supplied : Phase → Option FixedBuffer → Option FixedBuffer → List FixedBuffer → Type 0
Supplied testing new1 new2 bs = (missing new1 ≡ 0) × (missing new2 ≡ 0) × (bs ≡ [])
Supplied waiting new1 new2 bs = (missing new1 ≡ 0) × (missing new2 ≡ 0) × (bs ≡ [])
Supplied writing new1 new2 bs = missing new1 + missing new2 ≤ length bs
Supplied finished new1 new2 bs = bs ≡ []

pub record IsSound (a : AsyncLogging) : Type 0 where
  pub current_large : IsLarge a.current
  pub next_empty : IsEmptyIf a.next
  pub new1_empty : IsEmptyIf a.new1
  pub new2_empty : IsEmptyIf a.new2
  pub buffers_large : AreLarge a.buffers
  pub to_write_large : AreLarge a.to_write
  pub next_used : missing a.next ≤ length a.buffers
  pub supplied : Supplied a.phase a.new1 a.new2 a.to_write

-- Everything that has been appended, from the file's end on: what is in the file, and then what is in
-- the buffers.
abbrev pub stream : AsyncLogging → List ℕ
stream a = a.output ++ (texts a.to_write ++ (texts a.buffers ++ a.current.text))

pub texts-append : (bs cs : List FixedBuffer) → texts (bs ++ cs) ≡ texts bs ++ texts cs
texts-append [] cs = refl
texts-append (b ∷ bs) cs =
    ap (λ l. b.text ++ l) (texts-append bs cs) ∙ sym (append_assoc b.text (texts bs) (texts cs))

pub AreLarge-append : (bs cs : List FixedBuffer) → AreLarge bs → AreLarge cs → AreLarge (bs ++ cs)
AreLarge-append [] cs h k = k
AreLarge-append (b ∷ bs) cs h k = (h.0, AreLarge-append bs cs h.1 k)

pub AreLarge-take : (n : ℕ) (bs : List FixedBuffer) → AreLarge bs → AreLarge (take n bs)
AreLarge-take zero bs h = tt
AreLarge-take (suc n) [] h = tt
AreLarge-take (suc n) (b ∷ bs) h = (h.0, AreLarge-take n bs h.1)

pub or_new-empty :
    (o : Option FixedBuffer)
    → IsEmptyIf o
    → ((or_new o).size ≡ large_buffer) × ((or_new o).text ≡ [])
or_new-empty none h = (refl, refl)
or_new-empty (some b) h = h

-- A line that does not fit an empty buffer is dropped.
abbrev pub logged : List ℕ → List ℕ
logged line = if ltb (length line) large_buffer then line else []

pub append-in :
    (line : List ℕ) (b : FixedBuffer)
    → ltb (length line) (avail b) ≡ true
    → append line b ≡ record b { text = b.text ++ line }
unfolding append
append-in line b e = rw e refl

pub append-out :
    (line : List ℕ) (b : FixedBuffer) → ltb (length line) (avail b) ≡ false → append line b ≡ b
unfolding append
append-out line b e = rw e refl

pub avail-fits :
    (line : List ℕ) (b : FixedBuffer)
    → IsLarge b
    → ltb (length line) (avail b) ≡ true
    → (length b.text + length line < large_buffer) × (logged line ≡ line)
unfolding avail
avail-fits line b h e =
    let l : ltb (length line) large_buffer ≡ true = ground (arith, h.0, h.1) in
    rw l (ground (arith, h.0, h.1), refl)

pub append-fits :
    (line : List ℕ) (b : FixedBuffer)
    → IsLarge b
    → ltb (length line) (avail b) ≡ true
    → IsLarge (append line b) × ((append line b).text ≡ b.text ++ logged line)
append-fits line b h e =
    let (room, same) = avail-fits line b h e in
    rw (append-in line b e, same) ((h.0, omega (arith, room, length-append b.text line)), refl)

pub avail-empty : (b : FixedBuffer) → b.size ≡ large_buffer → b.text ≡ [] → avail b ≡ large_buffer
unfolding avail
avail-empty b s t = omega (arith, s, ap length t)

pub append-fresh :
    (line : List ℕ) (b : FixedBuffer)
    → b.size ≡ large_buffer
    → b.text ≡ []
    → IsLarge (append line b) × ((append line b).text ≡ logged line)
append-fresh line b s t =
    let v = ap (ltb (length line)) (avail-empty b s t) in
    let large : IsLarge b = (s, omega (arith, ap length t)) in
    elim (Bool-cases (ltb (length line) large_buffer)) [
      | inl e ↦
          let (l, same) = append-fits line b large (v ∙ e) in
          (l, same ∙ ap (λ x. x ++ logged line) t)
      | inr e ↦ rw (append-out line b (v ∙ e), e) (large, t)
    ]

pub stream-regroup :
    (out tw bs cur line : List ℕ)
    → out ++ (tw ++ (bs ++ (cur ++ line))) ≡ (out ++ (tw ++ (bs ++ cur))) ++ line
stream-regroup out tw bs cur line = simp append_assoc

-- `append` puts the line behind all that was appended before, whole, if it is shorter than a buffer.
pub append_line-stream :
    (line : List ℕ) (a : AsyncLogging)
    → IsSound a
    → IsSound (append_line line a) × (stream (append_line line a) ≡ stream a ++ logged line)
unfolding append_line
append_line-stream line a s = elim (Bool-cases (ltb (length line) (avail a.current))) [
  | inl e ↦
      let (l, same) = append-fits line a.current s.current_large e in
      rw e (
        record {
          current_large = l;
          next_empty = s.next_empty;
          new1_empty = s.new1_empty;
          new2_empty = s.new2_empty;
          buffers_large = s.buffers_large;
          to_write_large = s.to_write_large;
          next_used = s.next_used;
          supplied = s.supplied;
        },
        ap (λ t. a.output ++ (texts a.to_write ++ (texts a.buffers ++ t))) same
            ∙ stream-regroup a.output (texts a.to_write) (texts a.buffers) a.current.text
                (logged line),
      )
  | inr e ↦
      let fresh = or_new-empty a.next s.next_empty in
      let (l, same) = append-fresh line (or_new a.next) fresh.0 fresh.1 in
      rw e (
        record {
          current_large = l;
          next_empty = tt;
          new1_empty = s.new1_empty;
          new2_empty = s.new2_empty;
          buffers_large =
              AreLarge-append a.buffers (a.current ∷ []) s.buffers_large (s.current_large, tt);
          to_write_large = s.to_write_large;
          next_used = omega (arith, length-append a.buffers (a.current ∷ []));
          supplied = s.supplied;
        },
        ap₂ (λ b t. a.output ++ (texts a.to_write ++ (b ++ t)))
              (texts-append a.buffers (a.current ∷ [])
                ∙ ap (λ l. texts a.buffers ++ l) (append-nil a.current.text))
              same
            ∙ ap (λ l. a.output ++ (texts a.to_write ++ l))
                (append_assoc (texts a.buffers) a.current.text (logged line))
            ∙ stream-regroup a.output (texts a.to_write) (texts a.buffers) a.current.text
                (logged line),
      )
]
