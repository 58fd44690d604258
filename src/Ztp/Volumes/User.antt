-- ===== src/Ztp/Volumes/User.antt =====
-- The user that a container's --user gets.
use sonic_operator.Base.{
  ◌≡◌, inl, inr, Text, codes, true, Option, none, some, [], ◌∷◌, ◌++◌, ok, arith, Option-cases,
  subst,
}
use sonic_operator.Base.Int.{ℤ}
use sonic_operator.Strconv.{itoa}
use sonic_operator.Api.{Container, ContainerSecurityContext}
use sonic_operator.Ztp.Volumes.{container_docker_user, context_user, user_of, runs_as_user}

-- The user is an explicit one, with a group or without.
pub data IsUser : Text → Type 0 where
  only_user : (u : ℤ) → IsUser (itoa u)
  user_and_group : (u g : ℤ) → IsUser (itoa u ++ (codes ":" ++ itoa g))

user_of-IsUser :
    (name : Text) (u : ℤ) (g : Option ℤ) {t : Text} → user_of name (some u) g ≡ ok t → IsUser t
unfolding user_of
user_of-IsUser name u none h = subst IsUser (cc) (only_user u)
user_of-IsUser name u (some g) h = subst IsUser (cc) (user_and_group u g)

context_user-IsUser :
    (name : Text) (context : Option ContainerSecurityContext) {t : Text}
    → runs_as_user context ≡ true
    → context_user name context ≡ ok t
    → IsUser t
unfolding context_user runs_as_user
context_user-IsUser name none r h = absurd (ground arith)
context_user-IsUser name (some context) r h = elim (Option-cases context.run_as_user) [
  | inl e ↦ absurd (ground arith)
  | inr (u, e) ↦ user_of-IsUser name u context.run_as_group (rw e at h)
]

pub container_docker_user-IsUser :
    (c : Container) {t : Text}
    → runs_as_user c.security_context ≡ true
    → container_docker_user c ≡ ok t
    → IsUser t
unfolding container_docker_user
container_docker_user-IsUser c r h = context_user-IsUser c.name c.security_context r h

-- The text of a user and a group: nothing without a user, the number of a user, or both numbers with
-- a colon between them. A group without a user has none.
abbrev IsIds : Option ℤ → Option ℤ → Text → Type 0
IsIds none none t = t ≡ []
IsIds none (some g) t = ⊥
IsIds (some u) none t = t ≡ itoa u
IsIds (some u) (some g) t = t ≡ itoa u ++ b':' ∷ itoa g

abbrev pub IsUserOf : Option ContainerSecurityContext → Text → Type 0
IsUserOf none t = t ≡ []
IsUserOf (some context) t = IsIds context.run_as_user context.run_as_group t

user_of-IsIds : (name : Text) (u g : Option ℤ) {t : Text} → user_of name u g ≡ ok t → IsIds u g t
unfolding user_of codes
user_of-IsIds name none none {t} h = ground (arith, h)
user_of-IsIds name none (some g) {t} h = absurd (ground (arith, h))
user_of-IsIds name (some u) none {t} h = ground (arith, h)
user_of-IsIds name (some u) (some g) {t} h = ground (arith, h)

context_user-IsUserOf :
    (name : Text) (context : Option ContainerSecurityContext) {t : Text}
    → context_user name context ≡ ok t
    → IsUserOf context t
unfolding context_user
context_user-IsUserOf name none {t} h = ground (arith, h)
context_user-IsUserOf name (some context) {t} h =
    user_of-IsIds name context.run_as_user context.run_as_group {t = t} h

pub container_docker_user-IsUserOf :
    (c : Container) {t : Text} → container_docker_user c ≡ ok t → IsUserOf c.security_context t
unfolding container_docker_user
container_docker_user-IsUserOf c {t} h = context_user-IsUserOf c.name c.security_context {t = t} h
