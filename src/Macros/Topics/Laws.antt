-- ===== src/Macros/Topics/Laws.antt =====
-- Which handler a message reaches (crates/guest-macro/src/messaging.rs).
use yetti.Base.{
  ◌≡◌, refl, inl, inr, true, false, some, List, [], ◌∷◌, ◌++◌, arith, Text, nat_eq, Bool-cases,
  Option-cases,
}
use yetti.Base.Lists.{All}
use yetti.Base.Str.{starts_with, contains_str}
use yetti.Macros.Guest.{Topic}
use yetti.Macros.Topics.{dispatch, Message, Processors, handle, run}

starts_with_trans :
    (a b t : Text) → starts_with a b ≡ true → starts_with b t ≡ true → starts_with a t ≡ true
unfolding starts_with
starts_with_trans [] b t h k = refl
starts_with_trans (x ∷ a) [] t h k = cc
starts_with_trans (x ∷ a) (y ∷ b) [] h k = cc
starts_with_trans (x ∷ a) (y ∷ b) (z ∷ t) h k = ground (arith, h, k, starts_with_trans a b t)

contains_str-starts_with :
    (a b t : Text) → contains_str a b ≡ true → starts_with b t ≡ true → contains_str a t ≡ true
unfolding contains_str starts_with
contains_str-starts_with a [] [] h k = h
contains_str-starts_with a [] (z ∷ t) h k = ground (arith, h, starts_with_trans a [] (z ∷ t))
contains_str-starts_with a (y ∷ b) [] h k = cc
contains_str-starts_with a (y ∷ b) (z ∷ t) h k =
    ground (arith, h, k, starts_with_trans a (y ∷ b) (z ∷ t), contains_str-starts_with a b t)

contains_str_trans :
    (a b t : Text) → contains_str a b ≡ true → contains_str b t ≡ true → contains_str a t ≡ true
unfolding contains_str
contains_str_trans a b [] h k = contains_str-starts_with a b [] h k
contains_str_trans a b (z ∷ t) h k =
    ground (arith, h, k, contains_str-starts_with a b (z ∷ t), contains_str_trans a b t)

dispatch-unmatched :
    (xs ys : List Topic) (b : Topic) (t : Text)
    → contains_str b.pattern_ t ≡ false
    → dispatch (xs ++ b ∷ ys) t ≡ dispatch (xs ++ ys) t
unfolding dispatch
dispatch-unmatched [] ys b t h = rw (h, dispatch)
dispatch-unmatched (x ∷ xs) ys b t h = elim (Bool-cases (contains_str x.pattern_ t)) [
  | inl found ↦ rw (found, dispatch)
  | inr missed ↦ rw (missed, dispatch) (dispatch-unmatched xs ys b t h)
]

dispatch-shadowed :
    (xs ys zs : List Topic) (a b : Topic) (t : Text)
    → contains_str a.pattern_ b.pattern_ ≡ true
    → dispatch (xs ++ a ∷ (ys ++ b ∷ zs)) t ≡ dispatch (xs ++ a ∷ (ys ++ zs)) t
unfolding dispatch
dispatch-shadowed [] ys zs a b t h = elim (Bool-cases (contains_str a.pattern_ t)) [
  | inl found ↦ rw (found, dispatch)
  | inr missed ↦
      rw (missed, dispatch)
        (dispatch-unmatched ys zs b t
          (ground (arith, missed, h, contains_str_trans a.pattern_ b.pattern_ t)))
]
dispatch-shadowed (x ∷ xs) ys zs a b t h = elim (Bool-cases (contains_str x.pattern_ t)) [
  | inl found ↦ rw (found, dispatch)
  | inr missed ↦ rw (missed, dispatch) (dispatch-shadowed xs ys zs a b t h)
]

dispatch_first :
    (xs ys : List Topic) (a : Topic) (t : Text)
    → All (λ x. contains_str x.pattern_ t ≡ false) xs
    → contains_str a.pattern_ t ≡ true
    → dispatch (xs ++ a ∷ ys) t ≡ some a
unfolding dispatch
dispatch_first [] ys a t all h = rw (h, dispatch)
dispatch_first (x ∷ xs) ys a t (missed, all) h =
    rw (missed, dispatch) (dispatch_first xs ys a t all h)

module _ (P : Processors) where
  -- A topic whose pattern contains that of an earlier one never gets a message: taking it out
  -- changes nothing for any message.
  pub handle-shadowed :
      (xs ys zs : List Topic) (a b : Topic) (message : Message) (w : P.World)
      → contains_str a.pattern_ b.pattern_ ≡ true
      → handle P (xs ++ a ∷ (ys ++ b ∷ zs)) message w ≡ handle P (xs ++ a ∷ (ys ++ zs)) message w
  unfolding handle
  handle-shadowed xs ys zs a b message w h = elim (Option-cases message.topic) [
    | inl absent ↦ rw absent
    | inr (t, here) ↦ rw (here, dispatch-shadowed xs ys zs a b t h)
  ]

  -- A message is processed for the first topic in the order of the settings whose pattern occurs in
  -- the message's topic.
  handle_first :
      (xs ys : List Topic) (a : Topic) (message : Message) (t : Text) (w : P.World)
      → message.topic ≡ some t
      → All (λ x. contains_str x.pattern_ t ≡ false) xs
      → contains_str a.pattern_ t ≡ true
      → handle P (xs ++ a ∷ ys) message w ≡ run P (some a) t message.payload w
  unfolding handle
  handle_first xs ys a message t w here all h = rw (here, dispatch_first xs ys a t all h)
