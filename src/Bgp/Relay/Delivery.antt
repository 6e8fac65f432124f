-- ===== src/Bgp/Relay/Delivery.antt =====
-- Which lines of ExaBGP reach the route server (bgp/client.py, bgp/server.py).
use ixp_irc.Prelude.{
  ℕ, ◌+◌, ◌≤◌, true, is_nil, List, [], ◌∷◌, ◌++◌, All, length, append-nil, append_assoc,
  if◌then◌else◌, ◌≡◌, refl, sym, ap, ◌∙◌, arith, Bool-cases, inl, inr,
}
use ixp_irc.Bgp.Text.{Text}
use ixp_irc.Bgp.Relay.{strip, client_sender, server_receiver}

abbrev pub IsEmpty : Text → Type 0
IsEmpty line = is_nil (strip line) ≡ true

-- The lines that are not empty, without the blanks around them.
abbrev pub messages : List Text → List Text
messages [] = []
messages (line ∷ lines) =
    if is_nil (strip line) then messages lines else strip line ∷ messages lines

-- At most a hundred empty lines stand in a row.
abbrev pub HasShortRuns : List Text → Type 0
HasShortRuns lines =
    (before run after : List Text)
    → lines ≡ before ++ (run ++ after)
    → All IsEmpty run
    → length run ≤ 100

-- A run at the start, after `counter` empty lines.
abbrev StartsShort : ℕ → List Text → Type 0
StartsShort counter lines =
    (run after : List Text) → lines ≡ run ++ after → All IsEmpty run → counter + length run ≤ 100

client_sender-messages :
    (counter : ℕ) (lines : List Text)
    → StartsShort counter lines
    → HasShortRuns lines
    → client_sender counter lines ≡ messages lines
unfolding client_sender
client_sender-messages counter [] s h = refl
client_sender-messages counter (raw ∷ lines) s h = elim (Bool-cases (is_nil (strip raw))) [
  | inl e ↦
      let few : counter + 1 ≤ 100 = omega (arith, s (raw ∷ []) lines refl (e, tt)) in
      let ih =
        client_sender-messages (counter + 1) lines
          (λ run after q a. omega (arith, s (raw ∷ run) after (ap (λ x. raw ∷ x) q) (e, a)))
          (λ before run after q a. h (raw ∷ before) run after (ap (λ x. raw ∷ x) q) a) in
      rw e (ground (arith, ih, few))
  | inr n ↦ rw n (
      ap (λ x. strip raw ∷ x)
        (client_sender-messages 0 lines
          (λ run after q a. omega (arith, h (raw ∷ []) run after (ap (λ x. raw ∷ x) q) a))
          (λ before run after q a. h (raw ∷ before) run after (ap (λ x. raw ∷ x) q) a)))
]

server_receiver-append : (lines queue : List Text) → server_receiver lines queue ≡ queue ++ lines
unfolding server_receiver
server_receiver-append [] queue = sym (append-nil queue)
server_receiver-append (line ∷ lines) queue =
    server_receiver-append lines (queue ++ line ∷ []) ∙ append_assoc queue (line ∷ []) lines

-- As long as ExaBGP writes at most a hundred empty lines in a row, the queue of the route server gets
-- all its other lines, in their order and without the blanks around them.
pub server_receiver-client_sender :
    (lines queue : List Text)
    → HasShortRuns lines
    → server_receiver (client_sender 0 lines) queue ≡ queue ++ messages lines
server_receiver-client_sender lines queue h =
    server_receiver-append (client_sender 0 lines) queue
    ∙ ap (λ x. queue ++ x)
        (client_sender-messages 0 lines (λ run after q a. omega (arith, h [] run after q a)) h)
