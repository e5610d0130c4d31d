-- ===== src/Setup/Answers.antt =====
-- Calls of lib/ixmap.c whose requests to the system are all answered.
use ixmap.Base.{ℕ, zero, suc, List, [], ◌∷◌, Option, none, some, ◌==◌, Bool-cases, inl, inr}
use ixmap.Setup.{Resource, World, next_answer, ask, enter, acquire, release, attempt}

-- The next `n` answers are no failures.
abbrev pub Answered : ℕ → List (Option ℕ) → Type 0
Answered zero answers = Unit
Answered (suc n) [] = ⊥
Answered (suc n) (none ∷ answers) = ⊥
Answered (suc n) (some a ∷ answers) = Answered n answers

abbrev pub Ready : ℕ → World → Type 0
Ready n w = Answered n w.answers

-- A call succeeds, with `n` answers to spare.
abbrev pub Succeeds : {A : Type 0} → ℕ → Option A × World → Type 0
Succeeds n (none, w) = ⊥
Succeeds n (some a, w) = Ready n w

next_answer-Succeeds :
    (n : ℕ) (answers : List (Option ℕ)) (w : World)
    → Answered (suc n) answers
    → Succeeds n (next_answer answers w)
unfolding next_answer
next_answer-Succeeds n [] w h = h
next_answer-Succeeds n (none ∷ answers) w h = h
next_answer-Succeeds n (some a ∷ answers) w h = h

ask-Succeeds : (n : ℕ) (w : World) → Ready (suc n) w → Succeeds n (ask w)
ask-Succeeds n w h = next_answer-Succeeds n w.answers w h

enter-Succeeds :
    (make : ℕ → Resource) (n : ℕ) (r : Option ℕ × World) → Succeeds n r → Succeeds n (enter make r)
unfolding enter
enter-Succeeds make n (none, w) h = h
enter-Succeeds make n (some a, w) h = h

acquire-Succeeds :
    (make : ℕ → Resource) (n : ℕ) (w : World) → Ready (suc n) w → Succeeds n (acquire make w)
acquire-Succeeds make n w h = enter-Succeeds make n (ask w) (ask-Succeeds n w h)

pub release-Ready : (n : ℕ) (r : Resource) (w : World) → Ready n w → Ready n (release r w)
unfolding release
release-Ready n r w h = elim (Bool-cases (w.live r == 0)) [ inl e ↦ rw e h | inr e ↦ rw e h ]

pub attempt-Succeeds :
    {A B : Type 0} (m n : ℕ) (r : Option A × World) (clean_up : World → World)
    (go_on : A → World → Option B × World)
    → Succeeds m r
    → ((a : A) (w : World) → Ready m w → Succeeds n (go_on a w))
    → Succeeds n (attempt r clean_up go_on)
unfolding attempt
attempt-Succeeds m n (none, w) clean_up go_on h next = absurd h
attempt-Succeeds m n (some a, w) clean_up go_on h next = next a w h

pub acquire-attempt-Succeeds :
    {B : Type 0} (make : ℕ → Resource) (m n : ℕ) (w : World) (clean_up : World → World)
    (go_on : ℕ → World → Option B × World)
    → Ready (suc m) w
    → ((a : ℕ) (w : World) → Ready m w → Succeeds n (go_on a w))
    → Succeeds n (attempt (acquire make w) clean_up go_on)
acquire-attempt-Succeeds make m n w clean_up go_on h =
    attempt-Succeeds m n (acquire make w) clean_up go_on (acquire-Succeeds make m w h)

pub ask-attempt-Succeeds :
    {B : Type 0} (m n : ℕ) (w : World) (clean_up : World → World)
    (go_on : ℕ → World → Option B × World)
    → Ready (suc m) w
    → ((a : ℕ) (w : World) → Ready m w → Succeeds n (go_on a w))
    → Succeeds n (attempt (ask w) clean_up go_on)
ask-attempt-Succeeds m n w clean_up go_on h =
    attempt-Succeeds m n (ask w) clean_up go_on (ask-Succeeds m w h)
