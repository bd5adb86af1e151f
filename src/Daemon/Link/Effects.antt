-- ===== src/Daemon/Link/Effects.antt =====
-- What the goroutine of NewJFSClient does, over any run.
use fs_lib.Prelude.{
  ℕ, ◌+◌, List, [], ◌∷◌, ◌++◌, ◌≡◌, refl, sym, ap, ◌∙◌, subst, Bool, true, false, not, Bool-cases,
  inl, inr, Option, none, some, length, if◌then◌else◌, arith, ok, err, Result,
}
use fs_lib.Ipc.{Message, is_broken}
use fs_lib.Daemon.Link.{
  Pc, selects, dials, reads, stopped, Link, Env, Effect, connects, calls_back, closes, new_link,
  is_none, dial, clear_client, is_positive, after_read, Shake, shaken, refused, timed_out,
  read_failed, step, step_at, run,
}

-- The effects follow one another as connections do: each is opened by one `connects`, has its
-- messages, which have positive types, and is closed once; the flag says that one is open.
abbrev pub Follows : Bool → List Effect → Bool → Type 0
Follows is_open [] end = is_open ≡ end
Follows false (connects ∷ rest) end = Follows true rest end
Follows false (_ ∷ rest) end = ⊥
Follows true (connects ∷ rest) end = ⊥
Follows true (calls_back m ∷ rest) end = (is_positive m.msg_type ≡ true) × Follows true rest end
Follows true (closes i ∷ rest) end = Follows false rest end

Follows-append :
    (xs ys : List Effect) (a b c : Bool) → Follows a xs b → Follows b ys c → Follows a (xs ++ ys) c
Follows-append [] ys a b c hx hy = subst (λ o. Follows o ys c) (sym hx) hy
Follows-append (connects ∷ xs) ys false b c hx hy = Follows-append xs ys true b c hx hy
Follows-append (connects ∷ xs) ys true b c hx hy = absurd hx
Follows-append (calls_back m ∷ xs) ys false b c hx hy = absurd hx
Follows-append (calls_back m ∷ xs) ys true b c hx hy = (hx.0, Follows-append xs ys true b c hx.1 hy)
Follows-append (closes i ∷ xs) ys false b c hx hy = absurd hx
Follows-append (closes i ∷ xs) ys true b c hx hy = Follows-append xs ys false b c hx hy

abbrev pub is_open : Link → Bool
is_open l = not (is_none l.client)

-- At Read there is a client, and where the loop dials there is none.
abbrev FitsPc : Pc → Option ℕ → Type 0
FitsPc dials client = is_none client ≡ true
FitsPc reads client = is_none client ≡ false
FitsPc _ client = Unit

-- The outcome of a step from a client that was open or not.
abbrev Good : Bool → Link × List Effect → Type 0
Good was (l, effects) = Follows was effects (is_open l) × FitsPc l.pc l.client

dial-Good :
    {E : Type 0} (start_fails : Bool) (shake : Shake E) (l : Link)
    → l.pc ≡ dials
    → is_none l.client ≡ true
    → Good (is_open l) (dial start_fails shake l)
unfolding dial
dial-Good true shaken l at none_yet = (refl, subst (λ p. FitsPc p l.client) (sym at) none_yet)
dial-Good true refused l at none_yet = (refl, subst (λ p. FitsPc p l.client) (sym at) none_yet)
dial-Good true timed_out l at none_yet = (refl, subst (λ p. FitsPc p l.client) (sym at) none_yet)
dial-Good true (read_failed e) l at none_yet =
    (refl, subst (λ p. FitsPc p l.client) (sym at) none_yet)
dial-Good false shaken l at none_yet =
    (subst (λ o. Follows (not o) (connects ∷ []) true) (sym none_yet) refl, refl)
dial-Good false refused l at none_yet = (refl, subst (λ p. FitsPc p l.client) (sym at) none_yet)
dial-Good false timed_out l at none_yet = (refl, subst (λ p. FitsPc p l.client) (sym at) none_yet)
dial-Good false (read_failed e) l at none_yet =
    (refl, subst (λ p. FitsPc p l.client) (sym at) none_yet)

clear_client-Good :
    (o : Option ℕ) (l : Link) → l.client ≡ o → Good (not (is_none o)) (clear_client o l)
unfolding clear_client
clear_client-Good none l e = (ap (λ o. not (is_none o)) (sym e), tt)
clear_client-Good (some i) l e = (refl, tt)

called_back :
    (m : Message) (b : Bool)
    → is_positive m.msg_type ≡ b
    → Follows true (if b then calls_back m ∷ [] else []) true
called_back m true e = (e, refl)
called_back m false e = refl

after_read-Good :
    {E : Type 0} (answer : Result E Message) (l : Link)
    → is_none l.client ≡ false
    → Good (is_open l) (after_read answer l)
unfolding after_read
after_read-Good (err e) l up = clear_client-Good l.client l refl
after_read-Good (ok m) l up = elim (Bool-cases (is_broken m)) [
  | inl broken ↦ rw broken (clear_client-Good l.client l refl)
  | inr fine ↦ rw fine (
    subst (λ o. Follows (not o) (if is_positive m.msg_type then calls_back m ∷ [] else []) (not o))
        (sym up) (called_back m (is_positive m.msg_type) refl),
    tt,
  )
]

chosen_pc : (o : Option ℕ) → FitsPc (if is_none o then dials else reads) o
chosen_pc none = refl
chosen_pc (some i) = refl

step_at-Good :
    {E : Type 0} (pc : Pc) (env : Env E) (l : Link)
    → l.pc ≡ pc
    → FitsPc pc l.client
    → Good (is_open l) (step_at pc env l)
unfolding step_at
step_at-Good selects env l at fits = elim (Bool-cases env.cancelled) [
  | inl over ↦ rw over (refl, tt)
  | inr on ↦ rw on (refl, chosen_pc l.client)
]
step_at-Good dials env l at fits = dial-Good env.start_fails env.shake l at fits
step_at-Good reads env l at fits = after_read-Good env.answer l fits
step_at-Good stopped env l at fits = (refl, subst (λ p. FitsPc p l.client) (sym at) tt)

run-Good :
    {E : Type 0} (envs : List (Env E)) (l : Link)
    → FitsPc l.pc l.client
    → Good (is_open l) (run envs l)
unfolding run step
run-Good [] l fits = (refl, fits)
run-Good (env ∷ envs) l fits =
    let (now, fits') = step_at-Good l.pc env l refl fits in
    let (later, fits'') = run-Good envs (step_at l.pc env l).0 fits' in
    (
      Follows-append (step_at l.pc env l).1 (run envs (step_at l.pc env l).0).1 _ _ _ now later,
      fits'',
    )

-- Whatever the IPC client answers, what the goroutine does is a sequence of connections: the
-- callback for a new connection is started once, then the callback for messages, for messages of
-- positive type only, and each connection is closed once before the next one starts.
pub run-Follows :
    {E : Type 0} (envs : List (Env E))
    → Follows false (run envs new_link).1 (is_open (run envs new_link).0)
run-Follows envs = (run-Good envs new_link tt).0

-- The answers of a dial that does not connect: its client is started, and its handshake fails.
abbrev pub fails_to_shake : {E : Type 0} → Env E → Bool
fails_to_shake env = elim env.shake [ shaken ↦ false | _ ↦ not env.start_fails ]

abbrev pub AllFail : {E : Type 0} → List (Env E) → Type 0
AllFail [] = Unit
AllFail (env ∷ envs) = (fails_to_shake env ≡ true) × AllFail envs

failed_dial :
    {E : Type 0} (start_fails : Bool) (shake : Shake E) (l : Link)
    → (elim shake as (λ _. Bool) [ shaken ↦ false | _ ↦ not start_fails ]) ≡ true
    → dial start_fails shake l
      ≡ (record l { next_id = l.next_id + 1; alive = l.next_id ∷ l.alive }, [])
unfolding dial
failed_dial true shaken l h = cc
failed_dial true refused l h = cc
failed_dial true timed_out l h = cc
failed_dial true (read_failed e) l h = cc
failed_dial false shaken l h = cc
failed_dial false refused l h = refl
failed_dial false timed_out l h = refl
failed_dial false (read_failed e) l h = refl

-- While the handshakes fail, the goroutine goes on dialling and calls nothing back, also when its
-- context is done, and leaves one more IPC client started and not closed with each of them.
pub dials_on :
    {E : Type 0} (envs : List (Env E)) (l : Link)
    → l.pc ≡ dials
    → AllFail envs
    → ((run envs l).0.pc ≡ dials)
      × ((run envs l).1 ≡ [])
      × (length (run envs l).0.alive ≡ length envs + length l.alive)
unfolding run step step_at
dials_on [] l at fail = (at, refl, omega arith)
dials_on (env ∷ envs) l at fail =
    let l' : Link = record l { next_id = l.next_id + 1; alive = l.next_id ∷ l.alive } in
    let stepped : step env l ≡ (l', []) =
      ap (λ p. step_at p env l) at ∙ failed_dial env.start_fails env.shake l fail.0 in
    let (pc, nothing, left) = dials_on envs l' at fail.1 in
    (
      ap (λ (r : Link × List Effect). (run envs r.0).0.pc) stepped ∙ pc,
      (λ i. (stepped i).1 ++ (run envs (stepped i).0).1) ∙ nothing,
      ap (λ (r : Link × List Effect). length (run envs r.0).0.alive) stepped ∙ omega (arith, left),
    )
