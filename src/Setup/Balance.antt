-- ===== src/Setup/Balance.antt =====
-- What a call took in sum: lemmas by which the calls of lib/ixmap.c are followed.
use ixmap.Base.{ℕ, ◌+◌, ◌≡◌, refl, true, false, Option, none, some, arith, ◌==◌, List, [], ◌∷◌}
use ixmap.Setup.{
  Resource, memory, region, mapping, file, stream, same, unit, World, ask, next_answer, enter,
  acquire, release, attempt,
}

-- From `w` to `w'` the resources of `cost` came to what is held, and nothing stray was given back.
abbrev pub Gains : (Resource → ℕ) → World → World → Type 0
Gains cost w w' = (w'.strays ≡ w.strays) × ((r : Resource) → w'.live r ≡ cost r + w.live r)

abbrev pub nothing : Resource → ℕ
nothing r = 0

-- A call that began in `w`: when it fails all is as it was, and else it has what it returned.
abbrev pub Balanced : {A : Type 0} → (A → Resource → ℕ) → World → Option A × World → Type 0
Balanced cost w (none, w') = Gains nothing w w'
Balanced cost w (some a, w') = Gains (cost a) w w'

-- A step within a call that began in `w` and that holds `kept` by then.
abbrev pub Step :
    {A : Type 0} → (Resource → ℕ) → (A → Resource → ℕ) → World → Option A × World → Type 0
Step kept cost w (none, w') = Gains kept w w'
Step kept cost w (some a, w') = Gains (λ r. cost a r + kept r) w w'

pub Gains-self : (w : World) → Gains nothing w w
Gains-self w = (refl, λ r. omega arith)

pub Gains-trans :
    (a b : Resource → ℕ) (w w' w'' : World)
    → Gains a w w'
    → Gains b w' w''
    → Gains (λ r. b r + a r) w w''
Gains-trans a b w w' w'' g h = (omega (arith, g.0, h.0), λ r. omega (arith, g.1 r, h.1 r))

pub Gains-same :
    (a b : Resource → ℕ) (w w' : World) → ((r : Resource) → a r ≡ b r) → Gains a w w' → Gains b w w'
Gains-same a b w w' e g = (g.0, λ r. omega (arith, g.1 r, e r))

pub same_refl : (r : Resource) → same r r ≡ true
unfolding same
same_refl (memory at size) = ground arith
same_refl (region at size) = ground arith
same_refl (mapping fd addr) = ground arith
same_refl (file fd) = ground arith
same_refl (stream f) = ground arith

pub release-Gains :
    (x : Resource) (kept : Resource → ℕ) (w w' : World)
    → Gains (λ r. unit x r + kept r) w w'
    → Gains kept w (release x w')
unfolding release
release-Gains x kept w w' g =
    let there : (w'.live x == 0) ≡ false = ground (arith, g.1 x, same_refl x) in
    rw (there) (g.0, λ r. omega (arith, g.1 r))

next_answer-Balanced :
    (answers : List (Option ℕ)) (w : World) → Balanced (λ a. nothing) w (next_answer answers w)
unfolding next_answer
next_answer-Balanced [] w = Gains-self w
next_answer-Balanced (none ∷ rest) w = (refl, λ r. omega arith)
next_answer-Balanced (some a ∷ rest) w = (refl, λ r. omega arith)

enter-Balanced :
    (make : ℕ → Resource) (w : World) (r : Option ℕ × World)
    → Balanced (λ a. nothing) w r
    → Balanced (λ a. unit (make a)) w (enter make r)
unfolding enter
enter-Balanced make w (none, w') b = b
enter-Balanced make w (some a, w') b = (b.0, λ r. omega (arith, b.1 r))

pub ask-Balanced : (w : World) → Balanced (λ a. nothing) w (ask w)
ask-Balanced w = next_answer-Balanced w.answers w

pub acquire-Balanced :
    (make : ℕ → Resource) (w : World) → Balanced (λ a. unit (make a)) w (acquire make w)
acquire-Balanced make w = enter-Balanced make w (ask w) (ask-Balanced w)

pub Balanced-Step :
    {A : Type 0} (kept : Resource → ℕ) (cost : A → Resource → ℕ) (w w' : World)
    (r : Option A × World)
    → Gains kept w w'
    → Balanced cost w' r
    → Step kept cost w r
Balanced-Step kept cost w w' (none, w'') g b =
    Gains-same (λ r. nothing r + kept r) kept w w'' (λ r. omega arith)
      (Gains-trans kept nothing w w' w'' g b)
Balanced-Step kept cost w w' (some a, w'') g b = Gains-trans kept (cost a) w w' w'' g b

pub attempt-Step :
    {A B : Type 0} (P : Option B × World → Type 0) (kept : Resource → ℕ) (cost : A → Resource → ℕ)
    (w : World) (r : Option A × World) (clean_up : World → World)
    (go_on : A → World → Option B × World)
    → Step kept cost w r
    → ((w' : World) → Gains kept w w' → P (none, clean_up w'))
    → ((a : A) (w' : World) → Gains (λ x. cost a x + kept x) w w' → P (go_on a w'))
    → P (attempt r clean_up go_on)
unfolding attempt
attempt-Step P kept cost w (none, w') clean_up go_on s c g = c w' s
attempt-Step P kept cost w (some a, w') clean_up go_on s c g = g a w' s

-- A call that holds `kept` in `w'`, and goes on with what the call `r` returned.
module _ {B : Type 0} (result : B → Resource → ℕ) (kept : Resource → ℕ) (w w' : World)
    (clean_up : World → World) where
  pub Balanced-attempt :
      {A : Type 0} (cost : A → Resource → ℕ) (r : Option A × World)
      (go_on : A → World → Option B × World)
      → Balanced cost w' r
      → Gains kept w w'
      → ((w₁ : World) → Gains kept w w₁ → Gains nothing w (clean_up w₁))
      → ((a : A) (w₁ : World)
          → Gains (λ x. cost a x + kept x) w w₁
          → Balanced result w (go_on a w₁))
      → Balanced result w (attempt r clean_up go_on)
  Balanced-attempt cost r go_on b g undo next =
      attempt-Step (Balanced result w) kept cost w r clean_up go_on
        (Balanced-Step kept cost w w' r g b) undo next

  pub acquire-attempt :
      (make : ℕ → Resource) (go_on : ℕ → World → Option B × World)
      → Gains kept w w'
      → ((w₁ : World) → Gains kept w w₁ → Gains nothing w (clean_up w₁))
      → ((a : ℕ) (w₁ : World)
          → Gains (λ x. unit (make a) x + kept x) w w₁
          → Balanced result w (go_on a w₁))
      → Balanced result w (attempt (acquire make w') clean_up go_on)
  acquire-attempt make go_on =
      Balanced-attempt (λ a. unit (make a)) (acquire make w') go_on (acquire-Balanced make w')

  pub ask-attempt :
      (go_on : ℕ → World → Option B × World)
      → Gains kept w w'
      → ((w₁ : World) → Gains kept w w₁ → Gains nothing w (clean_up w₁))
      → ((a : ℕ) (w₁ : World) → Gains kept w w₁ → Balanced result w (go_on a w₁))
      → Balanced result w (attempt (ask w') clean_up go_on)
  ask-attempt go_on g undo next =
      Balanced-attempt (λ a. nothing) (ask w') go_on (ask-Balanced w') g undo
        λ a w₁ h. next a w₁ (Gains-same _ kept w w₁ (λ r. omega arith) h)

pub acquire-Step :
    (make : ℕ → Resource) (kept : Resource → ℕ) (w w' : World)
    → Gains kept w w'
    → Step kept (λ a. unit (make a)) w (acquire make w')
acquire-Step make kept w w' g = Balanced-Step kept _ w w' _ g (acquire-Balanced make w')

pub ask-Step :
    (kept : Resource → ℕ) (w w' : World) → Gains kept w w' → Step kept (λ a. nothing) w (ask w')
ask-Step kept w w' g = Balanced-Step kept _ w w' _ g (ask-Balanced w')

-- What is held in another order.
pub give-Gains :
    (x : Resource) (kept held : Resource → ℕ) (w w' : World)
    → ((r : Resource) → held r ≡ unit x r + kept r)
    → Gains held w w'
    → Gains kept w (release x w')
give-Gains x kept held w w' e g =
    release-Gains x kept w w' (Gains-same held (λ r. unit x r + kept r) w w' e g)

-- A call whose result is handed to `give` once `later` has run, which may take
-- things too: when the call fails it holds nothing, and when it succeeds `give` leaves `kept`.
abbrev pub Returns :
    {A : Type 0}
    → (A → World → World)
    → (Resource → ℕ)
    → (World → World)
    → World
    → Option A × World
    → Type 0
Returns give kept later w (none, w') = Gains nothing w w'
Returns give kept later w (some a, w') = Gains kept w (give a (later w'))

pub Balanced-Returns :
    {A : Type 0} (cost : A → Resource → ℕ) (give : A → World → World) (taken kept : Resource → ℕ)
    (later : World → World) (w : World) (r : Option A × World)
    → ((a : A) (w₁ w₂ : World) → Gains (λ x. cost a x + taken x) w₁ w₂ → Gains kept w₁ (give a w₂))
    → ((w' : World) → Gains taken w' (later w'))
    → Balanced cost w r
    → Returns give kept later w r
Balanced-Returns cost give taken kept later w (none, w') back h b = b
Balanced-Returns cost give taken kept later w (some a, w') back h b = back a w (later w') (
    Gains-same _ _ w (later w') (λ r. omega arith)
      (Gains-trans (cost a) taken w w' (later w') b (h w')))

-- To give back what is not held changes nothing but the count of it.
abbrev pub stray : World → World
stray w = record w { strays = w.strays + 1 }

pub release-stray :
    (x : Resource) (kept : Resource → ℕ) (w w' : World)
    → w'.live x ≡ 0
    → Gains kept w w'
    → Gains kept (stray w) (release x w')
unfolding release
release-stray x kept w w' h g =
    let absent : (w'.live x == 0) ≡ true = ground arith in rw absent (omega (arith, g.0), g.1)
