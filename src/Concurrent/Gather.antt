-- ===== src/Concurrent/Gather.antt =====
-- The loops of asyncProcessType.Process and MultiImageStore.Save: a goroutine for each element sends
-- one message on a channel that holds them all, and the caller receives until one of them makes it
-- return, or as many as there are elements. A goroutine does its work in one step; all else that
-- happens may happen in any order.
pub mod Invariant
pub mod Progress
use mandible.Base.{ℕ, zero, suc, ◌≡◌, refl, ◌⊎◌, inl, inr, List, [], ◌∷◌, ◌++◌, length}
use mandible.Concurrent.Runs.{Run}

-- The caller waits for this many more messages, with what it has gathered, or has returned.
pub data Caller (A R : Type 0) : Type 0 where
  waiting : ℕ → A → Caller A R
  returned : R → Caller A R

pub Caller-cases :
    {A R : Type 0} (c : Caller A R)
    → ((r : R) × (c ≡ Caller.returned r)) ⊎ ((n : ℕ) × (a : A) × (c ≡ Caller.waiting n a))
Caller-cases (Caller.returned r) = inl (r, refl)
Caller-cases (Caller.waiting n a) = inr (n, a, refl)

-- Whether it still waits.
abbrev pub open_call : {A R : Type 0} → Caller A R → ℕ
open_call (Caller.waiting _ _) = 1
open_call (Caller.returned _) = 0

pub record System (S E M A R : Type 0) : Type 0 where
  pub pending : List E
  pub channel : List M
  pub shared : S
  pub caller : Caller A R

-- The messages of tasks that end one after the other, and what they leave.
module _ {S E M : Type 0} (act : E → S → M × S) where
  unfoldable pub messages : List E → S → List M
  messages [] s = []
  messages (task ∷ tasks) s = (act task s).0 ∷ messages tasks (act task s).1

  unfoldable pub effects : List E → S → S
  effects [] s = s
  effects (task ∷ tasks) s = effects tasks (act task s).1

-- The caller's loop over messages: whether it returns, and what it has gathered if not.
module _ {M A R : Type 0} (react : A → M → R ⊎ A) where
  unfoldable pub consume : A → List M → R ⊎ A
  consume a [] = inr a
  consume a (x ∷ xs) = elim (react a x) [ inl r ↦ inl r | inr a' ↦ consume a' xs ]

abbrev pub result : {A R : Type 0} → (A → R) → R ⊎ A → R
result finish (inl r) = r
result finish (inr a) = finish a

abbrev pub reaction : {A R : Type 0} → ℕ → R ⊎ A → Caller A R
reaction n (inl r) = Caller.returned r
reaction n (inr a) = Caller.waiting n a

module _ {S E M A R : Type 0} (act : E → S → M × S) (react : A → M → R ⊎ A) (finish : A → R) where
  -- A goroutine ends, the caller receives a message, or it has received all of them.
  pub data Step (s t : System S E M A R) : Type 0 where
    ends :
        (pre post : List E) (task : E)
        → s.pending ≡ pre ++ (task ∷ post)
        → t ≡ record {
          pending = pre ++ post;
          channel = s.channel ++ ((act task s.shared).0 ∷ []);
          shared = (act task s.shared).1;
          caller = s.caller;
        }
        → Step s t
    receives :
        (n : ℕ) (a : A) (x : M) (xs : List M)
        → s.caller ≡ Caller.waiting (suc n) a
        → s.channel ≡ x ∷ xs
        → t ≡ record s { channel = xs; caller = reaction n (react a x) }
        → Step s t
    returns :
        (a : A)
        → s.caller ≡ Caller.waiting zero a
        → t ≡ record s { caller = Caller.returned (finish a) }
        → Step s t

  abbrev pub Reach : System S E M A R → System S E M A R → Type 0
  Reach s t = Run Step s t

  -- The goroutines have been started.
  abbrev pub start : List E → A → S → System S E M A R
  start tasks a s = record {
    pending = tasks;
    channel = [];
    shared = s;
    caller = Caller.waiting (length tasks) a;
  }
