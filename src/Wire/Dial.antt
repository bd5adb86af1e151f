-- ===== src/Wire/Dial.antt =====
-- parseDialTarget of jfsnotify/utils.go. `url_parse` is url.Parse, with `none` for an error.
use fs_lib.Prelude.{
  ℕ, ◌+◌, [], ◌++◌, ◌≡◌, refl, ap, ◌∙◌, ◌⊎◌, inl, inr, ◌||◌, Option, none, some, Bool-cases,
  if◌then◌else◌, arith, Bytes, codes, equal, equal_iff, take, drop,
}
use fs_lib.Strings.{has_prefix, index}

pub record Url : Type 0 where
  pub scheme : Bytes
  pub path : Bytes
  pub host : Bytes

abbrev pub Target : Type 0
Target = Bytes × Bytes

-- the test for unix:addr, at the first colon
unix_target : Bytes → Option ℕ → Option ℕ → Option Target
unix_target target (some m1) none =
    if equal (take m1 target) (codes "unix")
    then some (codes "unix", drop (m1 + 1) target)
    else none
unix_target target _ _ = none

url_target : Bytes → Option Url → Target
url_target target none = (codes "tcp", target)
url_target target (some t) =
    if equal t.scheme (codes "unix") || equal t.scheme (codes "ipc")
    then (t.scheme, if equal t.path [] then t.host else t.path)
    else (codes "tcp", target)

after_unix : (Bytes → Option Url) → Bytes → Option ℕ → Option Target → Target
unfolding url_target
after_unix url_parse target m2 (some t) = t
after_unix url_parse target none none = (codes "tcp", target)
after_unix url_parse target (some m) none = url_target target (url_parse target)

unfoldable pub parse_dial_target : (Bytes → Option Url) → Bytes → Target
unfolding unix_target after_unix
parse_dial_target url_parse target =
    let m1 = index target (codes ":") in
    let m2 = index target (codes ":/") in after_unix url_parse target m2 (unix_target target m1 m2)

-- The network is one of three, and a tcp target is dialled as it was given.
abbrev pub IsTarget : Bytes → Target → Type 0
IsTarget target (net, addr) =
    ((net ≡ codes "tcp") × (addr ≡ target)) ⊎ ((net ≡ codes "unix") ⊎ (net ≡ codes "ipc"))

unix_target-IsTarget :
    (target : Bytes) (m1 m2 : Option ℕ) (t : Target)
    → unix_target target m1 m2 ≡ some t
    → IsTarget target t
unfolding unix_target
unix_target-IsTarget target none m2 t h = cc
unix_target-IsTarget target (some m1) (some m2) t h = cc
unix_target-IsTarget target (some m1) none t h =
    elim (Bool-cases (equal (take m1 target) (codes "unix"))) [
      | inl unix ↦ inr (inl (ground arith))
      | inr other ↦ absurd (ground arith)
    ]

url_target-IsTarget : (target : Bytes) (u : Option Url) → IsTarget target (url_target target u)
unfolding url_target
url_target-IsTarget target none = inl (refl, refl)
url_target-IsTarget target (some u) = elim (Bool-cases (equal u.scheme (codes "unix"))) [
  | inl unix ↦ rw (unix, url_target) (inr (inl ((equal_iff u.scheme (codes "unix")).0 unix)))
  | inr other ↦ elim (Bool-cases (equal u.scheme (codes "ipc"))) [
    | inl ipc ↦ rw (other, ipc, url_target) (inr (inr ((equal_iff u.scheme (codes "ipc")).0 ipc)))
    | inr neither ↦ rw (other, neither, url_target) (inl (refl, refl))
  ]
]

-- Whatever url.Parse returns, the network is tcp, unix or ipc, and with tcp the address is the
-- whole target.
pub parse_dial_target-IsTarget :
    (url_parse : Bytes → Option Url) (target : Bytes)
    → IsTarget target (parse_dial_target url_parse target)
unfolding parse_dial_target
parse_dial_target-IsTarget url_parse target =
    dispatched (index target (codes ":/"))
      (unix_target target (index target (codes ":")) (index target (codes ":/"))) refl
  where
    dispatched :
        (m2 : Option ℕ) (o : Option Target)
        → unix_target target (index target (codes ":")) (index target (codes ":/")) ≡ o
        → IsTarget target (after_unix url_parse target m2 o)
    dispatched m2 (some t) e =
        unix_target-IsTarget target (index target (codes ":")) (index target (codes ":/")) t e
    dispatched none none e = inl (refl, refl)
    dispatched (some m) none e = url_target-IsTarget target (url_parse target)

-- A target "unix:addr" with no ":/" in it is dialled at addr on a unix socket.
pub parse_dial_target-unix :
    (url_parse : Bytes → Option Url) (addr : Bytes)
    → index (codes "unix:" ++ addr) (codes ":/") ≡ none
    → parse_dial_target url_parse (codes "unix:" ++ addr) ≡ (codes "unix", addr)
unfolding parse_dial_target
parse_dial_target-unix url_parse addr h =
    ap
      (λ m2.
        after_unix url_parse (codes "unix:" ++ addr) m2
          (unix_target (codes "unix:" ++ addr) (index (codes "unix:" ++ addr) (codes ":")) m2))
      h
    ∙ (unfold index equal take drop has_prefix in refl)
