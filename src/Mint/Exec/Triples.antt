-- ===== src/Mint/Exec/Triples.antt =====
-- Rules for requests: what holds after a request, by how it ended.
use nutmix.Prelude.{Bool, true, false, ◌≡◌, refl, if◌then◌else◌}
use nutmix.Cashu.Errors.{Result, ok, err, panic}
use nutmix.Mint.Exec.{World, M, pure, lift, try, continue, ◌>>=◌}

module _ {A : Type 0} where
  -- After a success `Q`, after an error or a panic `R`.
  abbrev pub Post : (A → World → Type 0) → (World → Type 0) → Result A × World → Type 0
  Post Q R (ok a, w) = Q a w
  Post Q R (err x, w) = R w
  Post Q R (panic, w) = R w

-- From every world with `P`, the request ends with `Q` or fails with `R`.
pub record Triple {A : Type 0} (P : World → Type 0) (m : M A) (Q : A → World → Type 0)
    (R : World → Type 0) : Type 0 where
  pub run : (w : World) → P w → Post Q R (m w)

module _ {A : Type 0} {P R : World → Type 0} {Q : A → World → Type 0} where
  pub Triple-pure : (a : A) → ((w : World) → P w → Q a w) → Triple P (pure a) Q R
  unfolding pure
  Triple-pure a h = record { run = h }

  pub Triple-lift :
      (r : Result A)
      → ((a : A) → r ≡ ok a → (w : World) → P w → Q a w)
      → ((w : World) → P w → R w)
      → Triple P (lift r) Q R
  unfolding lift
  Triple-lift (ok a) h k = record { run = h a refl }
  Triple-lift (err x) h k = record { run = k }
  Triple-lift panic h k = record { run = k }

module _ {A B : Type 0} {R : World → Type 0} {Q : A → World → Type 0} {S : B → World → Type 0} where
  after :
      (r : Result A × World) (f : A → M B)
      → Post Q R r
      → ((a : A) → Triple (Q a) (f a) S R)
      → Post S R (continue r.0 f r.1)
  after (ok a, w) f h k = (k a).run w h
  after (err x, w) f h k = h
  after (panic, w) f h k = h

  pub Triple-bind :
      {P : World → Type 0} {m : M A} {f : A → M B}
      → Triple P m Q R
      → ((a : A) → Triple (Q a) (f a) S R)
      → Triple P (m >>= f) S R
  unfolding ◌>>=◌
  Triple-bind {P} {m} {f} h k = record { run = λ w p. after (m w) f (h.run w p) k }

-- An invariant is kept if it holds after the request, however it ended.
abbrev pub Keeps : {A : Type 0} → (World → Type 0) → M A → Type 0
Keeps P m = Triple P m (λ _. P) P

module _ {A : Type 0} {P : World → Type 0} where
  pub Keeps-pure : (a : A) → Keeps P (pure a)
  Keeps-pure a = Triple-pure a (λ w h. h)

  pub Keeps-lift : (r : Result A) → Keeps P (lift r)
  Keeps-lift r = Triple-lift r (λ a e w h. h) (λ w h. h)

  pub Keeps-if : (b : Bool) (m n : M A) → Keeps P m → Keeps P n → Keeps P (if b then m else n)
  Keeps-if true m n h k = h
  Keeps-if false m n h k = k

  pub Keeps-try : {m : M A} → Keeps P m → Keeps P (try m)
  unfolding try
  Keeps-try {m} h = record { run = λ w p. ended (m w) (h.run w p) }
    where
      ended :
          (r : Result A × World)
          → Post (λ _. P) P r
          → Post
              (λ (_ : Result A). P)
              P
              (let (s, w) = r in
                (elim s [ ok a ↦ ok (ok a) | err e ↦ ok (err e) | panic ↦ panic ], w))
      ended (ok a, w) h = h
      ended (err x, w) h = h
      ended (panic, w) h = h

module _ {A B : Type 0} {P : World → Type 0} {m : M A} {f : A → M B} where
  pub Keeps-bind : Keeps P m → ((a : A) → Keeps P (f a)) → Keeps P (m >>= f)
  Keeps-bind h k = Triple-bind h k

-- What a success tells may be forgotten.
pub Triple-weaken :
    {A : Type 0} {P R : World → Type 0} {Q S : A → World → Type 0} {m : M A}
    → Triple P m Q R
    → ((a : A) (w : World) → Q a w → S a w)
    → Triple P m S R
Triple-weaken {A} {P} {R} {Q} {S} {m} h k = record { run = λ w p. ended (m w) (h.run w p) }
  where
    ended : (r : Result A × World) → Post Q R r → Post S R r
    ended (ok a, w) h = k a w h
    ended (err x, w) h = h
    ended (panic, w) h = h

-- A fact that does not speak of the world may be taken out of what holds before.
pub Triple-given :
    {A : Type 0} {P R : World → Type 0} {Q : A → World → Type 0} {m : M A} {G : Type 0}
    → (G → Triple P m Q R)
    → Triple (λ w. P w × G) m Q R
Triple-given h = record { run = λ w p. (h p.1).run w p.0 }

-- What an invariant says of the world at the end.
pub Keeps-after :
    {A : Type 0} {P : World → Type 0} {m : M A} → Keeps P m → (w : World) → P w → P (m w).1
Keeps-after {A} {P} {m} h w p = ended (m w) (h.run w p)
  where
    ended : (r : Result A × World) → Post (λ _. P) P r → P r.1
    ended (ok a, w) h = h
    ended (err x, w) h = h
    ended (panic, w) h = h
