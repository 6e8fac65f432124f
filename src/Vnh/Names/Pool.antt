-- ===== src/Vnh/Names/Pool.antt =====
-- The pool of addresses that `step4` draws from (lib/vnh_assignment.py).
use ixp_irc.Prelude.{
  ℕ, zero, suc, ◌+◌, ◌≤◌, ◌<◌, List, [], ◌∷◌, get_elem?, length, none, some, Bool-cases, inl, inr,
  has_key, nat_eq, list_eq, ok, ◌≡◌, refl, arith,
}
use ixp_irc.Bgp.Text.{Text}
use ixp_irc.SetOperations.{Group, Part2Prefix}
use ixp_irc.Vnh.State.{Sdx}
use ixp_irc.Vnh.Names.{vnh_name, new_addresses, with_addresses, name_set, step4_from, step4}

get_elem_some :
    {A : Type 0} (l : List A) (i : ℕ) → i < length l → (a : A) × (get_elem? l i ≡ some a)
get_elem_some [] i h = absurd (omega arith)
get_elem_some (x ∷ l) zero h = (x, refl)
get_elem_some (x ∷ l) (suc i) h = get_elem_some l i (omega arith)

module _ (virtual_mac : ℕ → Text) where
  new_addresses_ok :
      (count : ℕ) (sdx : Sdx)
      → count < length sdx.vnh_pool
      → (sdx' : Sdx) × (new_addresses virtual_mac count sdx ≡ ok sdx')
        × (sdx'.vnh_pool ≡ sdx.vnh_pool)
  unfolding new_addresses with_addresses
  new_addresses_ok count sdx h =
      let (ip, q) = get_elem_some sdx.vnh_pool count h in
      elim (Bool-cases (has_key (vnh_name count) sdx.vnh_2_ip)) [
        | inl t ↦ (sdx, rw (t, new_addresses) refl, refl)
        | inr f ↦ (
          with_addresses virtual_mac count ip sdx,
          rw (f, new_addresses) (rw (q, new_addresses) refl),
          refl,
        )
      ]

  step4_from_ok :
      (count : ℕ) (part : Part2Prefix Text Text) (lcs : List (Group Text)) (sdx : Sdx)
      → count + length lcs ≤ length sdx.vnh_pool
      → (step4_from virtual_mac count part lcs sdx).0 ≡ none
  unfolding step4_from name_set
  step4_from_ok count part [] sdx h = refl
  step4_from_ok count part (pset ∷ lcs) sdx h =
      let (sdx', q, same) = new_addresses_ok count sdx (omega arith) in
      rw (q, step4_from)
        (step4_from_ok (count + 1) part lcs (name_set virtual_mac count pset part sdx')
          (rw same (omega arith)))

  -- If there are fewer sets than addresses in the pool, `step4` ends without an exception.
  pub step4_total :
      (part_2_prefix : Part2Prefix Text Text) (lcs : List (Group Text)) (sdx : Sdx)
      → length lcs < length sdx.vnh_pool
      → (step4 virtual_mac part_2_prefix lcs sdx).0 ≡ none
  unfolding step4
  step4_total part_2_prefix lcs sdx h = step4_from_ok 1 part_2_prefix lcs sdx (omega arith)
