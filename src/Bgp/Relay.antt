-- ===== src/Bgp/Relay.antt =====
-- bgp/client.py and bgp/server.py: the threads that copy lines between ExaBGP and the queues of the
-- route server. The connection delivers each line once and in order and raises nothing; what stdin
-- gives after its last line is the empty text, again and again.
pub mod Delivery
use ixp_irc.Prelude.{
  ℕ, ◌+◌, Bool, true, false, ◌&&◌, ◌||◌, leb, ltb, eqb, is_nil, List, [], ◌∷◌, ◌++◌, if◌then◌else◌,
}
use ixp_irc.Bgp.Text.{Text}

-- The characters that `str.strip()` takes off.
unfoldable pub is_blank : ℕ → Bool
is_blank c = (leb 9 c && leb c 13) || eqb c 32

unfoldable pub strip_left : Text → Text
unfolding is_blank
strip_left [] = []
strip_left (c ∷ cs) = let rest = strip_left cs in if is_blank c then rest else c ∷ cs

unfoldable pub strip_right : Text → Text
unfolding is_blank
strip_right [] = []
strip_right (c ∷ cs) =
    let rest = strip_right cs in if is_nil rest && is_blank c then [] else c ∷ rest

unfoldable pub strip : Text → Text
unfolding strip_left strip_right
strip line = strip_right (strip_left line)

-- `_sender` of the client: the lines that it sends before the hundred and first empty line in a row.
unfoldable pub client_sender : ℕ → List Text → List Text
unfolding strip
client_sender counter [] = []
client_sender counter (raw ∷ lines) =
    let line = strip raw in
    let after_empty = client_sender (counter + 1) lines in
    let after_line = client_sender 0 lines in
    if is_nil line then (if ltb 100 (counter + 1) then [] else after_empty) else line ∷ after_line

-- `_receiver` of the client: what it writes to stdout.
unfoldable pub client_receiver : List Text → Text
client_receiver [] = []
client_receiver (line ∷ lines) =
    let rest = client_receiver lines in if is_nil line then rest else (line ++ 10 ∷ []) ++ rest

-- `_sender` and `_receiver` of the server: each item of the queue is sent, each line received is put.
unfoldable pub server_sender : List Text → List Text
server_sender [] = []
server_sender (line ∷ queue) = line ∷ server_sender queue

unfoldable pub server_receiver : List Text → List Text → List Text
server_receiver [] queue = queue
server_receiver (line ∷ lines) queue = server_receiver lines (queue ++ line ∷ [])
