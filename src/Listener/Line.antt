-- ===== src/Listener/Line.antt =====
-- core/listener_impl.cc: the line of the accept callbacks, through `accept` and errors.
use Prim.Native.String.{String}
use tensorpipe.Prelude.{
  ℕ, ◌+◌, ◌≡◌, refl, inl, inr, Bool, true, false, ◌||◌, Option, none, List, [], ◌∷◌, ◌++◌, arith,
  length, length-append, List-cases, Bool-cases, sym, ◌∙◌, ap,
}
use tensorpipe.Pipe.Types.{Error, is_error}
use tensorpipe.RearmableCallback.{Rearmable, arm, trigger, trigger_all, trigger_all_from}
use tensorpipe.Listener.{
  Listener, call_accept_callback, call_accept_callbacks, accept_from_loop, handle_error,
  on_connection_hello_read, spontaneous_connection,
}

abbrev pub IsRange : ℕ → List ℕ → Type 0
IsRange n [] = Unit
IsRange n (m ∷ ms) = (m ≡ n) × IsRange (n + 1) ms

abbrev pub is_nil {ℓ} : {A : Type ℓ} → List A → Bool
is_nil [] = true
is_nil (x ∷ xs) = false

pub record IsInLine (s : Listener) : Type 0 where
  pub in_line : IsRange s.next_accept_callback_to_call s.accept_callback.callbacks
  pub counted :
      s.next_accept_callback_to_call + length s.accept_callback.callbacks
      ≡ s.next_pipe_being_accepted
  pub quiet : s.accept_callback.fired ≡ []
  pub one_waits : is_nil s.accept_callback.callbacks || is_nil s.accept_callback.args ≡ true
  pub checked : s.accept_callbacks_checked ≡ true

-- What an error leaves
pub record IsEmptied (s : Listener) : Type 0 where
  pub no_callback : s.accept_callback.callbacks ≡ []
  pub no_registration : s.connection_request_registrations ≡ []
  pub no_connection : s.connections_waiting_for_hello ≡ []

pub record IsAnswering (s : Listener) : Type 0 where
  pub line : IsInLine s
  pub emptied : is_error s.error ≡ true → IsEmptied s

IsRange-append :
    (n k : ℕ) (ms : List ℕ) → IsRange n ms → k ≡ n + length ms → IsRange n (ms ++ k ∷ [])
IsRange-append n k [] r e = (omega arith, tt)
IsRange-append n k (m ∷ ms) r e = (r.0, IsRange-append (n + 1) k ms r.1 (omega arith))

append-fold :
    (xs ys : List (ℕ × (Error × Option ℕ))) (s : Listener)
    → call_accept_callbacks (xs ++ ys) s ≡ call_accept_callbacks ys (call_accept_callbacks xs s)
unfolding call_accept_callbacks
append-fold [] ys s = refl
append-fold ((n, (error, pipe)) ∷ xs) ys s = append-fold xs ys _

-- The part of the state that the accept callbacks have no hand in
abbrev pub rest_of_state : Listener → Rearmable ℕ (Error × Option ℕ) × Error × List ℕ × List ℕ × ℕ
rest_of_state s = (
  s.accept_callback, s.error, s.connection_request_registrations, s.connections_waiting_for_hello,
  s.next_pipe_being_accepted,
)

one_waits-nil :
    {F A : Type 0} (fs : List F) (as' : List A) (a : A)
    → is_nil fs || is_nil (a ∷ as') ≡ true
    → fs ≡ []
one_waits-nil fs as' a h = ground arith

accept-nothing_waits :
    (s : Listener)
    → IsInLine s
    → is_error s.error ≡ false
    → s.accept_callback.args ≡ []
    → IsInLine (accept_from_loop s)
unfolding accept_from_loop arm call_accept_callbacks call_accept_callback
accept-nothing_waits s i e p = rw e (
    rw p (
      rw i.quiet (record {
        in_line = IsRange-append _ _ _ i.in_line (sym i.counted);
        counted = omega (
          arith,
          i.counted,
          length-append s.accept_callback.callbacks (s.next_pipe_being_accepted ∷ []),
        );
        quiet = refl;
        one_waits = ground arith;
        checked = i.checked;
      })))

accept-pipe_waits :
    (s : Listener) (a : Error × Option ℕ) (rest : List (Error × Option ℕ))
    → IsInLine s
    → is_error s.error ≡ false
    → s.accept_callback.args ≡ a ∷ rest
    → s.accept_callback.callbacks ≡ []
    → IsInLine (accept_from_loop s)
unfolding accept_from_loop arm call_accept_callbacks call_accept_callback
accept-pipe_waits s a rest i e p c = rw e (
    rw p (
      rw i.quiet (
        rw c (record {
          in_line = tt;
          counted = ground (arith, i.counted);
          quiet = refl;
          one_waits = refl;
          checked = ground (arith, i.counted, i.checked);
        }))))

-- After an error, the callback is called at once.
accept-refused :
    (s : Listener)
    → IsInLine s
    → is_error s.error ≡ true
    → IsEmptied s
    → IsAnswering (accept_from_loop s)
unfolding accept_from_loop call_accept_callback
accept-refused s i e x = rw e (record {
  line = record {
    in_line = ground (arith, x.no_callback);
    counted = ground (arith, i.counted);
    quiet = i.quiet;
    one_waits = i.one_waits;
    checked = ground (arith, x.no_callback, i.counted, i.checked);
  };
  emptied = λ h. record {
    no_callback = x.no_callback;
    no_registration = x.no_registration;
    no_connection = x.no_connection;
  };
})

pub call_accept_callbacks-frame :
    (xs : List (ℕ × (Error × Option ℕ))) (s : Listener)
    → rest_of_state (call_accept_callbacks xs s) ≡ rest_of_state s
unfolding call_accept_callbacks call_accept_callback
call_accept_callbacks-frame [] s = refl
call_accept_callbacks-frame ((n, (error, pipe)) ∷ xs) s = call_accept_callbacks-frame xs _

accept_from_loop-error :
    (s : Listener) → is_error s.error ≡ false → (accept_from_loop s).error ≡ s.error
unfolding accept_from_loop
accept_from_loop-error s e = rw e (ap (λ x. x.1) (call_accept_callbacks-frame _ _))

pub accept_from_loop-IsAnswering : (s : Listener) → IsAnswering s → IsAnswering (accept_from_loop s)
accept_from_loop-IsAnswering s i = elim (Bool-cases (is_error s.error)) [
  | inl e ↦ accept-refused s i.line e (i.emptied e)
  | inr e ↦ record {
    line = elim (List-cases s.accept_callback.args) [
      | inl p ↦ accept-nothing_waits s i.line e p
      | inr (a, rest, p) ↦
          accept-pipe_waits s a rest i.line e p (one_waits-nil _ rest a (rw p at i.line.one_waits))
    ];
    emptied = λ h. absurd (ground (arith, accept_from_loop-error s e));
  }
]

-- A pipe is opened
pub open_pipe-IsInLine :
    (transport : String) (connection : ℕ) (name : String) (s : Listener)
    → IsInLine s
    → IsInLine (on_connection_hello_read transport connection (spontaneous_connection name) s)
unfolding on_connection_hello_read trigger call_accept_callbacks call_accept_callback
open_pipe-IsInLine transport connection name s i = elim (List-cases s.accept_callback.callbacks) [
  | inl p ↦ rw p (
      rw i.quiet (record {
        in_line = rw p at i.in_line;
        counted = rw p at i.counted;
        quiet = refl;
        one_waits = refl;
        checked = i.checked;
      }))
  | inr (n, rest, p) ↦ rw p (
      rw i.quiet (record {
        in_line = (rw p at i.in_line).1;
        counted = ground (arith, i.counted);
        quiet = refl;
        one_waits = ground (arith, i.one_waits);
        checked = ground (arith, i.in_line, i.checked);
      }))
]

-- The callbacks that `triggerAll` flushes are the ones in line, and are all of them.
flush-in_line :
    (ns : List ℕ) (a : Error × Option ℕ) (done : List (ℕ × (Error × Option ℕ))) (s t : Listener)
    → call_accept_callbacks done s ≡ t
    → IsRange t.next_accept_callback_to_call ns
    → t.accept_callbacks_checked ≡ true
    → ((call_accept_callbacks (trigger_all_from ns a done) s).next_accept_callback_to_call
        ≡ t.next_accept_callback_to_call + length ns)
      × ((call_accept_callbacks (trigger_all_from ns a done) s).accept_callbacks_checked ≡ true)
unfolding trigger_all_from call_accept_callbacks call_accept_callback
flush-in_line [] a done s t e r c = rw e (omega arith, c)
flush-in_line (n ∷ ns) a done s t e r c =
    let done' : List (ℕ × (Error × Option ℕ)) = done ++ (n, a) ∷ [] in
    let called : call_accept_callbacks done' s ≡ call_accept_callback n a.0 a.1 t =
      append-fold done ((n, a) ∷ []) s ∙ ap (call_accept_callback n a.0 a.1) e in
    let rest = flush-in_line ns a done' s _ called r.1 (ground (arith, r.0, c)) in
    (omega (arith, rest.0), rest.1)

pub handle_error-IsAnswering : (s : Listener) → IsInLine s → IsAnswering (handle_error s)
unfolding handle_error trigger_all call_accept_callbacks
handle_error-IsAnswering s i =
    let ns : List ℕ = s.accept_callback.callbacks in
    let r : Rearmable ℕ (Error × Option ℕ) = record {
      callbacks = [];
      args = s.accept_callback.args;
      fired = [];
    } in
    let s' : Listener = record s { accept_callback = r } in
    let fired : List (ℕ × (Error × Option ℕ)) = trigger_all_from ns (s.error, none) [] in
    let flushed = flush-in_line ns (s.error, none) [] s' _ refl i.in_line i.checked in
    let same : rest_of_state (call_accept_callbacks fired s') ≡ rest_of_state s' =
      call_accept_callbacks-frame fired s' in
    let kept : (call_accept_callbacks fired s').accept_callback ≡ r = ap (λ x. x.0) same in
    let pipes : (call_accept_callbacks fired s').next_pipe_being_accepted
        ≡ s.next_pipe_being_accepted =
      ap (λ x. x.4) same in
    let no_callback : (call_accept_callbacks fired s').accept_callback.callbacks ≡ [] =
      ap (λ (x : Rearmable ℕ (Error × Option ℕ)). x.callbacks) kept in
    rw i.quiet (record {
      line = record {
        in_line = rw no_callback tt;
        counted = rw no_callback (omega (arith, flushed.0, pipes, i.counted));
        quiet = ap (λ (x : Rearmable ℕ (Error × Option ℕ)). x.fired) kept;
        one_waits = rw no_callback refl;
        checked = flushed.1;
      };
      emptied =
          λ x. record { no_callback = no_callback; no_registration = refl; no_connection = refl };
    })
