-- ===== src/Redis/Effects.antt =====
-- What one written field changes.
use sonic_operator.Base.{
  ℕ, ◌≡◌, ◌≢◌, ◌⊎◌, inl, inr, Text, text_eq, text_eq_iff, ◌==◌, ==_iff, Bool-cases, Fields, Option,
  some, [], ◌∷◌, arith, ok,
}
use sonic_operator.Redis.{Redis, Laws}

module _ {W Client : Type 0} {r : Redis W Client} (laws : Laws r) where
  -- The field of the hash has the value, and every other field of a hash of a database is as before.
  pub record Changed (w w' : W) (d : ℕ) (k f : Text) (v : Option Text) : Type 0 where
    pub now : laws.cell w' d k f ≡ v
    pub same :
        (e : ℕ) (j g : Text)
        → (e ≢ d) ⊎ ((k ≢ j) ⊎ (f ≢ g))
        → laws.cell w' e j g ≡ laws.cell w e j g

  -- Nothing that a server holds has changed.
  abbrev pub Kept : W → W → Type 0
  Kept w w' = (d : ℕ) (k f : Text) → laws.cell w' d k f ≡ laws.cell w d k f

  other_key :
      (c : Client) (k : Text) (fs : Fields) (w : W) (e : ℕ) (j g : Text)
      → (e ≢ laws.database c) ⊎ (k ≢ j)
      → laws.cell (r.hset c k fs w).1 e j g ≡ laws.cell w e j g
  other_key c k fs w e j g h = laws.hset_other c k fs w e j g h

  same_key :
      (c : Client) (k f v : Text) (w : W) (g : Text)
      → (r.hset c k ((f, v) ∷ []) w).0 ≡ ok tt
      → f ≢ g
      → laws.cell (r.hset c k ((f, v) ∷ []) w).1 (laws.database c) k g
        ≡ laws.cell w (laws.database c) k g
  same_key c k f v w g h ne = ground (arith, laws.hset_ok c k ((f, v) ∷ []) w g h, text_eq_iff f g)

  field_apart :
      (c : Client) (k f v : Text) (w : W) (e : ℕ) (j g : Text)
      → (r.hset c k ((f, v) ∷ []) w).0 ≡ ok tt
      → f ≢ g
      → laws.cell (r.hset c k ((f, v) ∷ []) w).1 e j g ≡ laws.cell w e j g
  field_apart c k f v w e j g h ne = elim (Bool-cases (e == laws.database c)) [
    | inr p ↦ other_key c k _ w e j g (inl (λ q. ground (arith, ==_iff e (laws.database c))))
    | inl p ↦ elim (Bool-cases (text_eq k j)) [
      | inr q ↦ other_key c k _ w e j g (inr (λ x. ground (arith, text_eq_iff k j)))
      | inl q ↦
          let same_db : e ≡ laws.database c = (==_iff e (laws.database c)).0 p in
          let same_text : k ≡ j = (text_eq_iff k j).0 q in
          rw (same_db, ← same_text) (same_key c k f v w g h ne)
    ]
  ]

  pub hset-Changed :
      (c : Client) (k f v : Text) (w : W)
      → (r.hset c k ((f, v) ∷ []) w).0 ≡ ok tt
      → Changed w (r.hset c k ((f, v) ∷ []) w).1 (laws.database c) k f (some v)
  hset-Changed c k f v w h = record {
    now = ground (arith, laws.hset_ok c k ((f, v) ∷ []) w f h, text_eq_iff f f);
    same = λ e j g. elim [
      | inl ne ↦ other_key c k _ w e j g (inl ne)
      | inr (inl ne) ↦ other_key c k _ w e j g (inr ne)
      | inr (inr ne) ↦ field_apart c k f v w e j g h ne
    ];
  }
