-- ===== src/Clients/Registry.antt =====
-- The client manager of src/server/client_manager.cpp without the order of its map.
use qode.Base.{◌≡◌, refl, List, ◌∷◌}
use mathlib.Core.Quot
use mathlib.Core.Quot.{Quot, Quot-set}
use qode.Clients.{ClientManager}
use qode.Clients.Store.{fds, AllDistinct}
use qode.Clients.Unordered.{
  Agrees, AllSame, same_answer, one_more, call-AllDistinct, call-Agrees, ask-Agrees,
}
use qode.Clients.Calls.{Call, Answer, call, ask}

-- The manager without the order of its map.
abbrev Entries : Type 0
Entries = (m : ClientManager) × AllDistinct (fds m.clients)

abbrev Registry : Type 0
Registry = Quot (λ (x y : Entries). Agrees x.0 y.0)

-- What the calls return, one after another, without the order in which descriptors are listed.
abbrev Answers : Type 0
Answers = Quot AllSame

answers : List Call → Registry → Answers
answers ks =
    Quot.lift Quot-set (λ x. Quot.mk (ask ks x.0)) (λ x y a. Quot.sound (ask-Agrees ks x.1 a))

after_entries : Call → Entries → Entries
after_entries k x = ((call k x.0).1, call-AllDistinct k x.0 x.1)

after : Call → Registry → Registry
unfolding after_entries
after k =
    Quot.lift Quot-set (λ x. Quot.mk (after_entries k x))
      (λ x y a. Quot.sound (call-Agrees k x.1 a).1)

one_answer : Answer → Answers → Answers
one_answer a =
    Quot.lift Quot-set (λ as'. Quot.mk (a ∷ as')) (λ as' bs s. Quot.sound (one_more same_answer s))

-- The calls run on the manager without the order of its map: the rest of them runs on what the
-- first one leaves.
answers-cons :
    (k : Call) (ks : List Call) (x : Entries)
    → answers (k ∷ ks) (Quot.mk x) ≡ one_answer (call k x.0).0 (answers ks (after k (Quot.mk x)))
unfolding answers one_answer after after_entries ask
answers-cons k ks x = refl
