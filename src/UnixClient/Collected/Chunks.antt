-- ===== src/UnixClient/Collected/Chunks.antt =====
-- The bytes that an exchange holds while its chunks come in.
use mathlib.Core.List.{append_assoc, append-nil}
use mathlib.Core.Logic.{inl, inr}
use incus_unraid.Prelude.{
  ℕ, zero, suc, ◌+◌, ◌-◌, ◌≤◌, ◌<◌, true, false, ◌≡◌, refl, sym, ap, ◌∙◌, List, [], ◌∷◌, ◌++◌,
  length, take, ltb, length-append, take_all, Bool-cases, arith,
}
use incus_unraid.UnixClient.Exchange.{too_large, throws, hangs, Exchange, concat, on_data}

concat-append : (bs : List (List ℕ)) (b : List ℕ) → concat (bs ++ b ∷ []) ≡ concat bs ++ b
concat-append [] b = append-nil b
concat-append (c ∷ bs) b = rw (concat-append bs b) (sym (append_assoc c (concat bs) b))

take-split : (n : ℕ) (xs ys : List ℕ) → take n (xs ++ ys) ≡ take n xs ++ take (n - length xs) ys
take-split zero [] ys = refl
take-split zero (x ∷ xs) ys =
    let none_left : zero - length (x ∷ xs) ≡ 0 = omega arith in rw none_left refl
take-split (suc n) [] ys = let rest : suc n - 0 ≡ suc n = omega arith in rw rest refl
take-split (suc n) (x ∷ xs) ys =
    let same : suc n - length (x ∷ xs) ≡ n - length xs = omega arith in
    rw same (ap (◌∷◌ x) (take-split n xs ys))

-- What a truncating exchange holds after the bytes `all`.
pub record Cut (max : ℕ) (all : List ℕ) (x : Exchange) : Type 0 where
  pub kept : concat x.chunks ≡ take max all
  pub count : x.bytes ≡ length all
  pub flag : x.truncated ≡ ltb max (length all)
  pub going : x.failed ≡ false
  pub open_ : x.settled ≡ hangs

pub on_data-Cut :
    (max : ℕ) (b all : List ℕ) (x : Exchange)
    → Cut max all x
    → Cut max (all ++ b) (on_data max true b x)
unfolding on_data
on_data-Cut max b all x c =
    let count = c.count in
    let flag = c.flag in
    let total : x.bytes + length b ≡ length (all ++ b) = omega (arith, length-append all b) in
    let taken : concat (x.chunks ++ take (max - x.bytes) b ∷ []) ≡ take max (all ++ b) =
      rw (concat-append x.chunks (take (max - x.bytes) b))
        (rw (take-split max all b) (rw c.kept (rw count refl))) in
    elim (Bool-cases (ltb (max - x.bytes) (length b))) [
      | inl e ↦
          let over : true ≡ ltb max (length (all ++ b)) = ground arith in
          elim (Bool-cases (ltb 0 (max - x.bytes))) [
            | inl f ↦ rw e (
                rw f (record {
                  kept = taken;
                  count = total;
                  flag = over;
                  going = c.going;
                  open_ = c.open_;
                }))
            | inr f ↦
                let full : max - length all ≡ 0 = ground arith in
                let same : concat x.chunks ≡ take max (all ++ b) =
                  rw (take-split max all b) (rw full (c.kept ∙ sym (append-nil (take max all)))) in
                rw e (
                  rw f (record {
                    kept = same;
                    count = total;
                    flag = over;
                    going = c.going;
                    open_ = c.open_;
                  }))
          ]
      | inr e ↦
          let fits : length b ≤ max - x.bytes = ground arith in
          let whole = take_all (max - x.bytes) b fits in
          let over : x.truncated ≡ ltb max (length (all ++ b)) = ground arith in
          rw e (record {
            kept = rw whole at taken;
            count = total;
            flag = over;
            going = c.going;
            open_ = c.open_;
          })
    ]

-- What a rejecting exchange holds after the bytes `all`.
pub data Kept (max : ℕ) (all : List ℕ) (x : Exchange) : Type 0 where
  fits :
      length all ≤ max
      → concat x.chunks ≡ all
      → x.bytes ≡ length all
      → x.truncated ≡ false
      → x.failed ≡ false
      → x.settled ≡ hangs
      → Kept max all x
  over :
      max < length all
      → x.bytes ≡ length all
      → x.failed ≡ true
      → x.settled ≡ throws too_large
      → Kept max all x

pub on_data-Kept :
    (max : ℕ) (b all : List ℕ) (x : Exchange)
    → Kept max all x
    → Kept max (all ++ b) (on_data max false b x)
unfolding on_data
on_data-Kept max b all x (fits l k n t f o) =
    let total : x.bytes + length b ≡ length (all ++ b) = omega (arith, length-append all b) in
    elim (Bool-cases (ltb (max - x.bytes) (length b))) [
      | inl e ↦
          let big : max < length (all ++ b) = ground arith in
          rw e (rw f (rw o (over big total refl refl)))
      | inr e ↦
          let small : length (all ++ b) ≤ max = ground arith in
          let same : concat (x.chunks ++ b ∷ []) ≡ all ++ b =
            rw (concat-append x.chunks b) (rw k refl) in
          rw e (fits small same total t f o)
    ]
on_data-Kept max b all x (over l n f o) =
    let total : x.bytes + length b ≡ length (all ++ b) = omega (arith, length-append all b) in
    let big : max < length (all ++ b) = omega (arith, length-append all b) in
    elim (Bool-cases (ltb (max - x.bytes) (length b))) [
      | inl e ↦ rw e (rw f (over big total refl o))
      | inr e ↦ rw e (over big total f o)
    ]
