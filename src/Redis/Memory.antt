-- ===== src/Redis/Memory.antt =====
-- A server in memory that answers every command: the instance of the interface on which the
-- theorems about the databases are tried. A client is the number of its database.
use sonic_operator.Base.{
  ℕ, suc, ◌≡◌, ◌≢◌, ◌⊎◌, inl, inr, refl, Text, text_eq, text_eq_iff, text_eq_refl, ◌==◌, Dict,
  Fields, lookup, insert, delete, lookup-insert, lookup-delete, has_prefix, Bool, true, false,
  Option, none, some, List, [], ◌∷◌, if◌then◌else◌, arith, Error, Result, ok,
}
use sonic_operator.Redis.{Redis, Laws, written}

-- The hashes of each database.
abbrev pub Server : Type 0
Server = ℕ → Dict Fields

unfoldable pub fields_of : Text → Dict Fields → Fields
fields_of k m = elim (lookup k m) [ none ↦ [] | some fs ↦ fs ]

unfoldable pub with_database : ℕ → Dict Fields → Server → Server
with_database d m w e = if e == d then m else w e

unfoldable pub set_fields : Fields → Fields → Fields
set_fields [] old = old
set_fields ((g, v) ∷ fs) old = set_fields fs (insert g v old)

unfoldable pub has_field : Option Text → Bool
has_field none = false
has_field (some v) = true

unfoldable pub count : Fields → ℕ
count [] = 0
count (p ∷ fs) = 1

-- The part of a pattern before its first star.
unfoldable pub before_star : Text → Text
before_star [] = []
before_star (c ∷ s) = let rest = before_star s in if c == b'*' then [] else c ∷ rest

unfoldable pub keys_like : Text → Dict Fields → List Text
keys_like p [] = []
keys_like p ((k, fs) ∷ m) = let rest = keys_like p m in if has_prefix k p then k ∷ rest else rest

abbrev pub memory : Redis Server ℕ
memory = record {
  hset =
      λ d k fs w. (ok tt, with_database d (insert k (set_fields fs (fields_of k (w d))) (w d)) w);
  hget = λ d k f w. (ok (lookup f (fields_of k (w d))), w);
  hgetall = λ d k w. (ok (fields_of k (w d)), w);
  hexists = λ d k f w. (ok (has_field (lookup f (fields_of k (w d)))), w);
  hdel = λ d k f w. (ok tt, with_database d (insert k (delete f (fields_of k (w d))) (w d)) w);
  exists = λ d k w. (ok (count (fields_of k (w d))), w);
  del = λ d k w. (ok tt, with_database d (delete k (w d)) w);
  scan = λ d cursor p n w. (ok (keys_like (before_star p) (w d), 0), w);
  keys = λ d p w. (ok (keys_like (before_star p) (w d)), w);
}

abbrev pub cell : Server → ℕ → Text → Text → Option Text
cell w d k f = lookup f (fields_of k (w d))

pub set_fields-written :
    (f : Text) (fs old : Fields) → lookup f (set_fields fs old) ≡ written f fs (lookup f old)
unfolding set_fields
set_fields-written f [] old = refl
set_fields-written f ((g, v) ∷ fs) old =
    rw (set_fields-written f fs (insert g v old), lookup-insert g f v old) refl

fields_of-insert :
    (k j : Text) (fs : Fields) (m : Dict Fields)
    → fields_of j (insert k fs m) ≡ (if text_eq k j then fs else fields_of j m)
unfolding fields_of
fields_of-insert k j fs m = ground (arith, lookup-insert k j fs m)

fields_of-delete :
    (k j : Text) (m : Dict Fields)
    → fields_of j (delete k m) ≡ (if text_eq k j then [] else fields_of j m)
unfolding fields_of
fields_of-delete k j m = ground (arith, lookup-delete k j m)

pub own_database : (d : ℕ) (m : Dict Fields) (w : Server) → with_database d m w d ≡ m
unfolding with_database
own_database d m w = ground arith

-- What is written to one hash is seen in that hash alone.
pub elsewhere :
    (d : ℕ) (k : Text) (m : Dict Fields) (w : Server) (e : ℕ) (j f : Text)
    → ((i : Text) → k ≢ i → fields_of i m ≡ fields_of i (w d))
    → (e ≢ d) ⊎ (k ≢ j)
    → cell (with_database d m w) e j f ≡ cell w e j f
unfolding with_database
elsewhere d k m w e j f h (inl ne) = ground arith
elsewhere d k m w e j f h (inr ne) = ground (arith, h j ne)

pub insert_elsewhere :
    (k : Text) (fs : Fields) (m : Dict Fields) (i : Text)
    → k ≢ i
    → fields_of i (insert k fs m) ≡ fields_of i m
insert_elsewhere k fs m i ne = ground (arith, fields_of-insert k i fs m, text_eq_iff k i)

pub delete_elsewhere :
    (k : Text) (m : Dict Fields) (i : Text) → k ≢ i → fields_of i (delete k m) ≡ fields_of i m
delete_elsewhere k m i ne = ground (arith, fields_of-delete k i m, text_eq_iff k i)

pub insert_here : (k : Text) (fs : Fields) (m : Dict Fields) → fields_of k (insert k fs m) ≡ fs
insert_here k fs m = ground (arith, fields_of-insert k k fs m, text_eq_refl k)

pub delete_here : (k : Text) (m : Dict Fields) → fields_of k (delete k m) ≡ []
delete_here k m = ground (arith, fields_of-delete k k m, text_eq_refl k)

-- A reply.
abbrev pub said : {A : Type 0} → A → Result Error A
said a = ok a

pub has_field-false : (o : Option Text) → said (has_field o) ≡ said false → o ≡ none
unfolding has_field
has_field-false none h = refl
has_field-false (some v) h = absurd (ground arith)

pub has_field-true : (o : Option Text) → said (has_field o) ≡ said true → (v : Text) × (o ≡ some v)
unfolding has_field
has_field-true none h = absurd (ground arith)
has_field-true (some v) h = (v, refl)

pub count_zero : (fs : Fields) (f : Text) → said (count fs) ≡ said 0 → lookup f fs ≡ none
unfolding count lookup
count_zero [] f h = refl
count_zero (p ∷ fs) f h = absurd (ground arith)

pub count_pos :
    (fs : Fields) (n : ℕ) → said (count fs) ≡ said (suc n) → (f v : Text) × (lookup f fs ≡ some v)
unfolding count lookup
count_pos [] n h = absurd (ground arith)
count_pos ((g, v) ∷ fs) n h = (g, v, ground (arith, text_eq_refl g))

pub nothing_there : (f : Text) → lookup {V = Text} f [] ≡ none
unfolding lookup
nothing_there f = refl

abbrev pub memory_laws : Laws memory
memory_laws = record {
  database = λ d. d;
  cell = cell;
  hset_ok = λ d k fs w f h.
      rw
        (
          own_database d (insert k (set_fields fs (fields_of k (w d))) (w d)) w,
          insert_here k (set_fields fs (fields_of k (w d))) (w d),
        )
        (set_fields-written f fs (fields_of k (w d)));
  hset_other = λ d k fs w e j f ne. elsewhere d k _ w e j f (insert_elsewhere k _ (w d)) ne;
  del_ok =
      λ d k w f h. rw (own_database d (delete k (w d)) w, delete_here k (w d)) (nothing_there f);
  del_other = λ d k w e j f ne. elsewhere d k _ w e j f (delete_elsewhere k (w d)) ne;
  hdel_ok = λ d k f w g h.
      rw
        (
          own_database d (insert k (delete f (fields_of k (w d))) (w d)) w,
          insert_here k (delete f (fields_of k (w d))) (w d),
        )
        (lookup-delete f g (fields_of k (w d)));
  hdel_other = λ d k f w e j g ne. elsewhere d k _ w e j g (insert_elsewhere k _ (w d)) ne;
  hget_reply = λ d k f w h. ground arith;
  hget_keeps = λ c k f w d j g. refl;
  hgetall_reply = λ d k w f h. ground arith;
  hgetall_keeps = λ c k w d j g. refl;
  hexists_false = λ d k f w h. has_field-false _ h;
  hexists_true = λ d k f w h. has_field-true _ h;
  exists_zero = λ d k w f h. count_zero _ f h;
  exists_pos = λ d k w n h. count_pos _ n h;
  exists_keeps = λ c k w d j g. refl;
}
