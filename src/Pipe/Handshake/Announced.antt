-- ===== src/Pipe/Handshake/Announced.antt =====
-- core/pipe_impl.cc: the connections that a client opens, and the tokens that it announces on them.
use Prim.Native.String.{String}
use text.Mathlib.Text.{◌==◌ as str_eq}
use tensorpipe.Prelude.{
  ℕ, zero, suc, take, ◌+◌, ◌≡◌, refl, sym, ◌∙◌, ap, Bool, not, ◌&&◌, Option, none, some, List, [],
  ◌∷◌, ◌++◌, ◌==◌, if◌then◌else◌, length, length-append, subst, arith, inl, inr, Bool-cases,
  Option-cases,
}
use mathlib.Core.List.{append_assoc, append-nil}
use tensorpipe.Pipe.Types.{Device, PipeState}
use tensorpipe.Pipe.Selection.{find_key, select_channels}
use tensorpipe.Pipe.Handlers.{become_established}
use tensorpipe.Pipe.Handshake.{BrochureAnswer, Contexts, find_registration_id}
use tensorpipe.Pipe.Handshake.Established.{become_established-side}
use tensorpipe.Pipe.Handshake.Client.{
  ClientMessage, requested, Client, open_connection, open_connections, open_channels, is_consistent,
  find_transport, replace_connection, open_reply_connection, take_channels, take_answer,
  is_waiting_for_answer, on_brochure_answer,
}

-- The messages on as many new connections, from a number on, with the given tokens
abbrev pub announce : ℕ → List ℕ → List ClientMessage
announce n [] = []
announce n (token ∷ tokens) = requested n token ∷ announce (n + 1) tokens

abbrev pub token_list : Option ℕ → List ℕ
token_list none = []
token_list (some token) = token ∷ []

-- The tokens of the answer: those for the pipe itself, and those of the channels selected, as many
-- of each channel's as the channel needs
abbrev pub transport_tokens : Bool → List (ℕ × ℕ) → List ℕ
transport_tokens replaced ids =
    (if replaced then token_list (find_registration_id 0 ids) else [])
    ++ token_list (find_registration_id 1 ids)

abbrev pub tokens_for : Option (List ℕ) → List ℕ
tokens_for none = []
tokens_for (some tokens) = tokens

abbrev pub channel_tokens :
    (String → ℕ) → List (String × List ℕ) → List (String × List (Device × String)) → List ℕ
channel_tokens needed ids [] = []
channel_tokens needed ids ((name, descriptors) ∷ rest) =
    take (needed name) (tokens_for (find_key name ids)) ++ channel_tokens needed ids rest

announce-append :
    (n : ℕ) (xs ys : List ℕ) → announce n (xs ++ ys) ≡ announce n xs ++ announce (n + length xs) ys
announce-append n [] ys = let e : n + 0 ≡ n = omega arith in rw e refl
announce-append n (x ∷ xs) ys =
    let e : n + suc (length xs) ≡ (n + 1) + length xs = omega arith in
    rw e (ap (λ l. requested n x ∷ l) (announce-append (n + 1) xs ys))

-- Some connections have been opened, with these tokens.
pub record HasAnnounced (tokens : List ℕ) (c d : Client) : Type 0 where
  pub messages : d.written ≡ c.written ++ announce c.connections tokens
  pub opened : d.connections ≡ c.connections + length tokens

open_connection-HasAnnounced :
    (token : ℕ) (c : Client) → HasAnnounced (token ∷ []) c (open_connection token c).1
unfolding open_connection
open_connection-HasAnnounced token c = record { messages = refl; opened = refl }

HasAnnounced-trans :
    (xs ys : List ℕ) (c d e : Client)
    → HasAnnounced xs c d
    → HasAnnounced ys d e
    → HasAnnounced (xs ++ ys) c e
HasAnnounced-trans xs ys c d e a b = record {
  messages =
      b.messages
      ∙ ap (λ (l : List ClientMessage). l ++ announce d.connections ys) a.messages
      ∙ append_assoc c.written (announce c.connections xs) (announce d.connections ys)
      ∙ ap (λ (n : ℕ). c.written ++ (announce c.connections xs ++ announce n ys)) a.opened
      ∙ sym (ap (λ (l : List ClientMessage). c.written ++ l) (announce-append c.connections xs ys));
  opened = omega (arith, a.opened, b.opened, length-append xs ys);
}

abbrev pub or_client : Client → Option Client → Client
or_client d none = d
or_client d (some c) = c

abbrev or_opened : List ℕ × Client → Option (List ℕ × Client) → List ℕ × Client
or_opened d none = d
or_opened d (some c) = c

open_connections-HasAnnounced :
    (n : ℕ) (tokens : List ℕ) (c d : Client) (ns : List ℕ)
    → open_connections n tokens c ≡ some (ns, d)
    → HasAnnounced (take n tokens) c d
unfolding open_connections
open_connections-HasAnnounced zero tokens c d ns e =
    let same : c ≡ d = ap (λ (x : Option (List ℕ × Client)). (or_opened (ns, d) x).1) e in
    subst (HasAnnounced [] c) same
      (record { messages = sym (append-nil c.written); opened = omega arith })
open_connections-HasAnnounced (suc n) [] c d ns e = absurd (ground arith)
open_connections-HasAnnounced (suc n) (token ∷ tokens) c d ns e =
    let c' : Client = (open_connection token c).1 in
    elim (Option-cases (open_connections n tokens c')) [
      | inl f ↦ absurd (let q = rw (open_connections, f) at e in ground arith)
      | inr ((ks, c''), f) ↦
          let same : c'' ≡ d =
            ap (λ (x : Option (List ℕ × Client)). (or_opened (ns, d) x).1)
              (rw (open_connections, f) at e) in
          HasAnnounced-trans (token ∷ []) (take n tokens) c c' d
            (open_connection-HasAnnounced token c)
            (open_connections-HasAnnounced n tokens c' d ks
              (f ∙ ap (λ (x : Client). some (ks, x)) same))
    ]

open_channels-HasAnnounced :
    (ctx : Contexts) (ids : List (String × List ℕ)) (ds : List (String × List (Device × String)))
    (c d : Client)
    → open_channels ctx ids ds c ≡ some d
    → HasAnnounced (channel_tokens ctx.num_connections_needed ids ds) c d
unfolding open_channels
open_channels-HasAnnounced ctx ids [] c d e =
    let same : c ≡ d = ap (or_client d) e in
    subst (HasAnnounced [] c) same
      (record { messages = sym (append-nil c.written); opened = omega arith })
open_channels-HasAnnounced ctx ids ((name, descriptors) ∷ rest) c d e =
    let needed = ctx.num_connections_needed in
    elim (Option-cases (find_key name ids)) [
      | inl f ↦ absurd (ground arith)
      | inr (tokens, f) ↦ elim (Option-cases (open_connections (needed name) tokens c)) [
        | inl g ↦ absurd (let q = rw (open_channels, f, g) at e in ground arith)
        | inr ((ns, c'), g) ↦
            let opened = open_connections-HasAnnounced (needed name) tokens c c' ns g in
            let c'' : Client = record c' {
              channels = (name, ns) ∷ c'.channels;
              client_checked = c'.client_checked && needed name == length tokens;
            } in
            let first : HasAnnounced (take (needed name) tokens) c c'' = record {
              messages = opened.messages;
              opened = opened.opened;
            } in
            let others : HasAnnounced (channel_tokens needed ids rest) c'' d =
              open_channels-HasAnnounced ctx ids rest c'' d (rw (open_channels, f, g) at e) in
            rw (channel_tokens, f)
              (HasAnnounced-trans (take (needed name) tokens) (channel_tokens needed ids rest) c c''
                d first others)
      ]
    ]

replace_connection-HasAnnounced :
    (answer : BrochureAnswer) (c d : Client)
    → replace_connection answer c ≡ some d
    → HasAnnounced
        (if not (str_eq answer.transport c.transport)
          then token_list (find_registration_id 0 answer.transport_registration_ids)
          else [])
        c
        d
unfolding replace_connection
replace_connection-HasAnnounced answer c d e =
    elim (Bool-cases (str_eq answer.transport c.transport)) [
      | inl f ↦
          let same : c ≡ d = ap (or_client d) (rw (replace_connection, f) at e) in
          rw f (
            subst (HasAnnounced [] c) same
              (record { messages = sym (append-nil c.written); opened = omega arith }))
      | inr f ↦ elim (Option-cases (find_registration_id 0 answer.transport_registration_ids)) [
        | inl g ↦ absurd (let q = rw (replace_connection, f, g) at e in ground arith)
        | inr (token, g) ↦
            let (n, c') = open_connection token c in
            let same : (record c' { transport = answer.transport; descriptor_connection = n }) ≡ d =
              ap (or_client d) (rw (replace_connection, f, g) at e) in
            let opened = open_connection-HasAnnounced token c in
            rw (f, g)
              (subst (HasAnnounced (token ∷ []) c) same
                (record { messages = opened.messages; opened = opened.opened }))
      ]
    ]

open_reply_connection-HasAnnounced :
    (answer : BrochureAnswer) (c d : Client)
    → open_reply_connection answer c ≡ some d
    → HasAnnounced (token_list (find_registration_id 1 answer.transport_registration_ids)) c d
unfolding open_reply_connection
open_reply_connection-HasAnnounced answer c d e =
    elim (Option-cases (find_registration_id 1 answer.transport_registration_ids)) [
      | inl g ↦ absurd (let q = rw (open_reply_connection, g) at e in ground arith)
      | inr (token, g) ↦
          let (n, c') = open_connection token c in
          let same : (record c' { descriptor_reply_connection = some n }) ≡ d =
            ap (or_client d) (rw (open_reply_connection, g) at e) in
          let opened = open_connection-HasAnnounced token c in
          rw g (
            subst (HasAnnounced (token ∷ []) c) same
              (record { messages = opened.messages; opened = opened.opened }))
    ]

-- The tokens of the whole answer
abbrev pub answer_tokens : Contexts → BrochureAnswer → Client → List ℕ
answer_tokens ctx answer c =
    transport_tokens (not (str_eq answer.transport c.transport)) answer.transport_registration_ids
    ++ channel_tokens ctx.num_connections_needed answer.channel_registration_ids
        (select_channels ctx.ordered_channels answer.channel_device_descriptors).descriptors_map

take_channels-HasAnnounced :
    (ctx : Contexts) (answer : BrochureAnswer) (c d : Client)
    → take_channels ctx answer c ≡ some d
    → HasAnnounced
        (channel_tokens ctx.num_connections_needed answer.channel_registration_ids
          (select_channels ctx.ordered_channels answer.channel_device_descriptors).descriptors_map)
        c
        d
unfolding take_channels
take_channels-HasAnnounced ctx answer c d e =
    let selected = select_channels ctx.ordered_channels answer.channel_device_descriptors in
    let pairs = selected.channel_for_device_pair in
    elim (Bool-cases (
      length answer.channel_for_device_pair == length pairs
      && is_consistent answer.channel_for_device_pair pairs)) [
        | inl f ↦
            let c' : Client = record c {
              pipe = record (c.pipe) {
                core = record (c.pipe.core) { channel_for_device_pair = pairs };
              };
            } in
            let opened =
              open_channels-HasAnnounced ctx answer.channel_registration_ids
                selected.descriptors_map c' d (rw (take_channels, f) at e) in
            record { messages = opened.messages; opened = opened.opened }
        | inr f ↦ absurd (let q = rw (take_channels, f) at e in ground arith)
      ]

take_answer-HasAnnounced :
    (ctx : Contexts) (answer : BrochureAnswer) (c d : Client)
    → take_answer ctx answer c ≡ some d
    → HasAnnounced (answer_tokens ctx answer c) c d
unfolding take_answer
take_answer-HasAnnounced ctx answer c d e = elim (Option-cases (replace_connection answer c)) [
  | inl f ↦ absurd (let q = rw (take_answer, f) at e in ground arith)
  | inr (c', f) ↦ elim (Option-cases (open_reply_connection answer c')) [
    | inl g ↦ absurd (let q = rw (take_answer, f, g) at e in ground arith)
    | inr (c'', g) ↦
        HasAnnounced-trans _ _ c c'' d
          (HasAnnounced-trans _ _ c c' c'' (replace_connection-HasAnnounced answer c c' f)
            (open_reply_connection-HasAnnounced answer c' c'' g))
          (take_channels-HasAnnounced ctx answer c'' d (rw (take_answer, f, g) at e))
  ]
]

-- Where a client takes the answer to its brochure to the end, without throwing or reading what is
-- not there: its pipe is established, and it has opened connections, one after the other, and
-- announced on each a token of the answer: the pipe's own registrations first, then for each channel
-- that it selected too, in order, the channel's first registrations, as many as the channel needs
-- connections; and it has opened no others.
pub on_brochure_answer-announces :
    (ctx : Contexts) (answer : BrochureAnswer) (c d : Client)
    → on_brochure_answer ctx answer c ≡ some d
    → (d.pipe.core.state ≡ PipeState.established) × HasAnnounced (answer_tokens ctx answer c) c d
unfolding on_brochure_answer
on_brochure_answer-announces ctx answer c d e =
    elim (Option-cases (find_transport answer.transport ctx.ordered_transports)) [
      | inl f ↦ absurd (let q = rw (on_brochure_answer, f) at e in ground arith)
      | inr (t, f) ↦ elim (Option-cases (take_answer ctx answer c)) [
        | inl g ↦ absurd (let q = rw (on_brochure_answer, f, g) at e in ground arith)
        | inr (c', g) ↦
            let last : Client = record c' {
              pipe = become_established c'.pipe;
              client_checked =
                  c'.client_checked
                  && is_waiting_for_answer c.pipe.core.state
                  && t.can_communicate_with_remote answer.transport_domain_descriptor;
            } in
            let same : last ≡ d = ap (or_client d) (rw (on_brochure_answer, f, g) at e) in
            let taken = take_answer-HasAnnounced ctx answer c c' g in
            (
              ap (λ (x : Client). x.pipe.core.state) (sym same)
                  ∙ ap (λ x. x.0) (become_established-side c'.pipe),
              subst (HasAnnounced _ c) same
                  (record { messages = taken.messages; opened = taken.opened }),
            )
      ]
    ]
