-- ===== src/Core/Thread.antt =====
-- The class Thread of src/core/Thread.h: a pointer to a `std::thread`, which behaves as documented: a
-- thread that was neither joined nor detached ends the program when its object is destroyed, and only
-- such a thread can be joined or detached.
use ccml.Base.{List, [], ◌∷◌, Option, none, some}
use ccml.Utils.Logging.Quiet.{bound}

-- `_thread`: null, or a thread that is joinable, or one that is not any more.
pub data Handle : Type 0 where
  null joinable over : Handle

-- The constructor.
unfoldable pub new_thread : Handle
new_thread = null

-- The destructor of the `std::thread`; `none` ends the program.
destroyed : Handle → Option (Unit {0})
destroyed null = some tt
destroyed joinable = none
destroyed over = some tt

-- `start`: the new thread is made before `reset` destroys the old one.
unfoldable pub start : Handle → Option Handle
unfolding destroyed
start h = bound (λ _. some joinable) (destroyed h)

-- `detach` and `join`; `none` is a null pointer or an exception.
unfoldable pub detach : Handle → Option Handle
detach null = none
detach joinable = some over
detach over = none

unfoldable pub join : Handle → Option Handle
join null = none
join joinable = some over
join over = none

-- The destructor.
unfoldable pub delete_thread : Handle → Option (Unit {0})
unfolding destroyed
delete_thread h = destroyed h

pub data Call : Type 0 where
  starts detaches joins : Call

one_call : Call → Handle → Option Handle
unfolding start detach join
one_call starts h = start h
one_call detaches h = detach h
one_call joins h = join h

-- The calls on one object in order, then its destructor.
pub use_thread : List Call → Handle → Option (Unit {0})
unfolding one_call delete_thread
use_thread [] h = delete_thread h
use_thread (c ∷ calls) h = bound (use_thread calls) (one_call c h)

-- Each `start` has its `join` or `detach`, before the next one.
abbrev pub Paired : List Call → Type 0
Paired [] = Unit {0}
Paired (starts ∷ joins ∷ calls) = Paired calls
Paired (starts ∷ detaches ∷ calls) = Paired calls
Paired (starts ∷ starts ∷ calls) = ⊥
Paired (starts ∷ []) = ⊥
Paired (joins ∷ calls) = ⊥
Paired (detaches ∷ calls) = ⊥

-- Not running.
abbrev Idle : Handle → Type 0
Idle null = Unit {0}
Idle joinable = ⊥
Idle over = Unit {0}
