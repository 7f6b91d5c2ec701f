-- ===== src/Hooks/Run/Invariant.antt =====
-- The wait group counts the goroutines that have not ended, and the channel has room for all that is
-- still to be sent.
use cluster_api_runtime_exte.Prelude.{
  ℕ, suc, ◌+◌, ◌≤◌, ◌≡◌, refl, sym, ap, ◌∙◌, true, List, [], ◌∷◌, ◌++◌, map, length, length-append,
  arith,
}
use cluster_api_runtime_exte.Hooks.Run.{
  Hook, new_response, Goroutine, running, returned, sent, State, launch, Step, run_hook, send, done,
  close, receive, finish, Panics, send_on_closed, negative_counter, Steps, here, next, IsOver,
}

abbrev pub amount : (Goroutine → ℕ) → List Goroutine → ℕ
amount f [] = 0
amount f (g ∷ gs) = f g + amount f gs

pub amount_insert :
    (f : Goroutine → ℕ) (before after : List Goroutine) (g : Goroutine)
    → amount f (before ++ (g ∷ after)) ≡ f g + amount f (before ++ after)
amount_insert f [] after g = refl
amount_insert f (x ∷ before) after g = omega (arith, amount_insert f before after g)

length_insert :
    (before after : List Goroutine) (g : Goroutine)
    → length (before ++ (g ∷ after)) ≡ suc (length (before ++ after))
length_insert [] after g = refl
length_insert (x ∷ before) after g = omega (arith, length_insert before after g)

-- The responses that a goroutine has still to send.
abbrev unsent : Goroutine → ℕ
unsent (running h) = 1
unsent (returned r) = 1
unsent sent = 0

pub record IsValid (s : State) : Type 0 where
  pub counted : s.waiting ≡ length s.goroutines
  pub room : length s.channel + amount unsent s.goroutines ≤ s.capacity
  pub closed_last : s.closed ≡ true → s.waiting ≡ 0
  pub over_last : s.over ≡ true → (s.closed ≡ true) × (length s.channel ≡ 0)

length-running : (hooks : List Hook) → length hooks ≡ length (map running hooks)
length-running [] = refl
length-running (h ∷ hooks) = ap suc (length-running hooks)

amount-running : (hooks : List Hook) → amount unsent (map running hooks) ≡ length hooks
amount-running [] = refl
amount-running (h ∷ hooks) = omega (arith, amount-running hooks)

pub launch-IsValid : (hooks : List Hook) → IsValid (launch hooks)
unfolding launch
launch-IsValid hooks = record {
  counted = length-running hooks;
  room = omega (arith, amount-running hooks);
  closed_last = λ e. absurd (cc);
  over_last = λ e. absurd (cc);
}

pub Step-IsValid : {s t : State} → Step s t → IsValid s → IsValid t
Step-IsValid {s} (run_hook before after h p) v =
    let g = running h in
    let g' = returned (h new_response) in
    record {
      counted =
          v.counted
          ∙ ap length p
          ∙ length_insert before after g
          ∙ sym (length_insert before after g');
      room = omega (
        arith,
        v.room,
        ap (amount unsent) p,
        amount_insert unsent before after g,
        amount_insert unsent before after g',
      );
      closed_last = v.closed_last;
      over_last = v.over_last;
    }
Step-IsValid {s} (send before after x p o l) v =
    let g = returned x in
    record {
      counted =
          v.counted
          ∙ ap length p
          ∙ length_insert before after g
          ∙ sym (length_insert before after sent);
      room = omega (
        arith,
        v.room,
        ap (amount unsent) p,
        amount_insert unsent before after g,
        amount_insert unsent before after sent,
        length-append s.channel (x ∷ []),
      );
      closed_last = v.closed_last;
      over_last = λ e. let c = (v.over_last e).0 in absurd (cc (c, o));
    }
Step-IsValid {s} (done before after n p w) v = record {
  counted = omega (arith, v.counted, ap length p, length_insert before after sent);
  room = omega (arith, v.room, ap (amount unsent) p, amount_insert unsent before after sent);
  closed_last = λ e. let z = v.closed_last e in absurd (omega arith);
  over_last = v.over_last;
}
Step-IsValid {s} (close w o) v = record {
  counted = v.counted;
  room = v.room;
  closed_last = λ e. w;
  over_last = λ e. (refl, (v.over_last e).1);
}
Step-IsValid {s} (receive x rest p o) v = record {
  counted = v.counted;
  room = omega (arith, v.room, ap length p);
  closed_last = v.closed_last;
  over_last = λ e. absurd (cc (e, o));
}
Step-IsValid {s} (finish p c o) v = record {
  counted = v.counted;
  room = v.room;
  closed_last = v.closed_last;
  over_last = λ e. (c, ap length p);
}

pub Steps-IsValid : (hooks : List Hook) {s : State} {n : ℕ} → Steps (launch hooks) s n → IsValid s
Steps-IsValid hooks here = launch-IsValid hooks
Steps-IsValid hooks (next r st) = Step-IsValid st (Steps-IsValid hooks r)

none_left : {A : Type 0} (xs : List A) → length xs ≡ 0 → xs ≡ []
none_left [] e = refl
none_left (x ∷ xs) e = absurd (omega arith)

-- Once the loop has ended all goroutines have ended, and all that they sent is read.
pub over_ended : {s : State} → IsValid s → IsOver s → (s.goroutines ≡ []) × (s.channel ≡ [])
over_ended {s} v o =
    let (c, z) = v.over_last o in
    let w = v.closed_last c in
    (none_left s.goroutines (omega (arith, v.counted)), none_left s.channel z)

-- A goroutine that is there keeps the counter from zero, and with it the channel open.
pub IsValid-Panics : {s : State} → IsValid s → ¬ Panics s
IsValid-Panics v (send_on_closed before after r p c) =
    let z = v.closed_last c in
    absurd (omega (arith, v.counted, ap length p, length_insert before after (returned r)))
IsValid-Panics v (negative_counter before after p z) =
    absurd (omega (arith, v.counted, ap length p, length_insert before after sent))
