-- ===== src/Quota/Order.antt =====
-- The arithmetic of quotas and the meaning of `excess`.
use pydatatask.Base.{◌≡◌, none, arith}
use pydatatask.Base.Int.{ℤ, ◌≤ℤ◌, ◌+ℤ◌, ◌*ℤ◌, negsuc, int_laws}
use pydatatask.Quota.{Quota, add, mul, sub, excess}

-- Every resource of `q` is within `limit`.
pub record Within (q limit : Quota) : Type 0 where
  pub cpu : q.cpu ≤ℤ limit.cpu
  pub mem : q.mem ≤ℤ limit.mem
  pub launches : q.launches ≤ℤ limit.launches

pub Quota-eq : (a b : Quota) → a.cpu ≡ b.cpu → a.mem ≡ b.mem → a.launches ≡ b.launches → a ≡ b
Quota-eq a b p q r = λ i. record { cpu = p i; mem = q i; launches = r i }

pub sub-add_field : (a b : ℤ) → (a +ℤ b) +ℤ b *ℤ negsuc 0 ≡ a
sub-add_field a b = omega int_laws

-- Taking back what was added gives the quota one started from.
pub sub-add : (a b : Quota) → sub (add a b) b ≡ a
unfolding sub add mul
sub-add a b =
    Quota-eq _ a (sub-add_field a.cpu b.cpu) (sub-add_field a.mem b.mem)
      (sub-add_field a.launches b.launches)

add-sub_field : (a b : ℤ) → (a +ℤ b *ℤ negsuc 0) +ℤ b ≡ a
add-sub_field a b = omega int_laws

pub add-sub : (a b : Quota) → add (sub a b) b ≡ a
unfolding sub add mul
add-sub a b =
    Quota-eq _ a (add-sub_field a.cpu b.cpu) (add-sub_field a.mem b.mem)
      (add-sub_field a.launches b.launches)

pub excess-none→Within : (q limit : Quota) → excess q limit ≡ none → Within q limit
unfolding excess
excess-none→Within q limit h = record {
  cpu = ground arith;
  mem = ground arith;
  launches = ground arith;
}

pub Within→excess-none : (q limit : Quota) → Within q limit → excess q limit ≡ none
unfolding excess
Within→excess-none q limit w = ground arith
