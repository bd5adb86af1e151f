-- ===== src/Jfs/Chan.antt =====
-- Go's channels as the library uses them: a send may block or panic, and so may a close.
use fs_lib.Prelude.{
  ℕ, ◌<◌, List, [], ◌∷◌, ◌++◌, ◌≡◌, refl, Bool, true, false, ltb, if◌then◌else◌, arith, length,
}

pub data Outcome (A : Type 0) : Type 0 where
  done : A → Outcome A
  blocked : Outcome A
  panics : Outcome A

infixl 5 ◌>>=◌
abbrev pub ◌>>=◌ : {A B : Type 0} → Outcome A → (A → Outcome B) → Outcome B
done a >>= f = f a
blocked >>= f = blocked
panics >>= f = panics

pub record Chan (A : Type 0) : Type 0 where
  pub queue : List A
  pub closed : Bool

abbrev pub make_chan : {A : Type 0} → Chan A
make_chan = record { queue = []; closed = false }

-- c <- a, with the capacity of c
unfoldable pub send_to : {A : Type 0} → ℕ → A → Chan A → Outcome (Chan A)
send_to capacity a c =
    if c.closed
    then panics
    else if ltb (length c.queue) capacity
    then done (record c { queue = c.queue ++ a ∷ [] })
    else blocked

-- close(c)
unfoldable pub close_chan : {A : Type 0} → Chan A → Outcome (Chan A)
close_chan c = if c.closed then panics else done (record c { closed = true })

pub send_to-done :
    {A : Type 0} (capacity : ℕ) (a : A) (c c' : Chan A)
    → send_to capacity a c ≡ done c'
    → (c' ≡ record c { queue = c.queue ++ a ∷ [] }) × (length c.queue < capacity)
unfolding send_to
send_to-done capacity a c c' h = ground arith

-- A channel is closed once.
pub close_chan_twice : {A : Type 0} (c : Chan A) → (close_chan c >>= close_chan) ≡ panics
unfolding close_chan
close_chan_twice c = ground arith

pub bind-done :
    {A B : Type 0} (m : Outcome A) (f : A → Outcome B) {b : B}
    → (m >>= f) ≡ done b
    → (a : A) × (m ≡ done a) × (f a ≡ done b)
bind-done (done a) f h = (a, refl, h)
bind-done blocked f h = cc
bind-done panics f h = cc

pub done-injective : {A : Type 0} (a b : A) → done a ≡ done b → a ≡ b
done-injective a b h = cc
