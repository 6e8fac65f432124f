-- ===== src/Bgp/Peer/Laws.antt =====
-- What a participant's object does with a message (bgp/peer.py).
use ixp_irc.Prelude.{
  Bool, List, [], ◌∷◌, none, some, nat_eq, list_eq, ◌==◌, if◌then◌else◌, ◌≡◌, refl, ◌∙◌, arith, any,
}
use ixp_irc.Bgp.Text.{Text}
use ixp_irc.Bgp.Rib.{Route, Rib, get_all, delete, delete_all, commit}
use ixp_irc.Bgp.Rib.Laws.{get_all-delete}
use ixp_irc.Bgp.Peer.{Peer, delete_prefixes, go_down}

get_all-commit : (k : Text) (rib : Rib) → get_all (some k) (commit rib) ≡ get_all (some k) rib
unfolding get_all commit
get_all-commit k rib = refl

-- Some row of the list is for the prefix.
abbrev pub has_prefix : Text → List Route → Bool
has_prefix k rows = any (λ (r : Route). k == r.prefix) rows

get_all-delete_prefixes :
    (k : Text) (rs : List Route) (local : Rib)
    → get_all (some k) (delete_prefixes rs local)
      ≡ (if has_prefix k rs then [] else get_all (some k) local)
unfolding delete_prefixes any
get_all-delete_prefixes k [] local = refl
get_all-delete_prefixes k (r ∷ rs) local =
    get_all-delete_prefixes k rs (delete r.prefix local)
    ∙ ground (arith, get_all-delete k r.prefix local)

-- After the state "down", the participant's `input` has no row, and its `local` has, for each
-- prefix, no row if `input` had one for it, and the rows of before if not.
pub go_down_lem :
    (k : Text) (p : Peer)
    → (get_all none (go_down p).input ≡ [])
      × (get_all (some k) (go_down p).local
          ≡ (if has_prefix k (get_all none p.input) then [] else get_all (some k) p.local))
unfolding go_down get_all delete_all commit
go_down_lem k p = (refl, get_all-delete_prefixes k (get_all none p.input) p.local)
