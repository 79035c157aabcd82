-- ===== src/Auth/Row.antt =====
-- A row that the constructor of src/shm/shmauth.hpp makes, read back by its members.
use mathlib.Core.List.{append_assoc}
use smithproxy.Base.{
  ℕ, zero, suc, ◌+◌, ◌-◌, ◌≤◌, ◌≡◌, ◌≢◌, refl, sym, ap, ◌∙◌, List, [], ◌∷◌, ◌++◌, some, Text,
  ne→==_false, All, length, take, drop, replicate, length-append, drop-append, take-append, arith,
}
use smithproxy.Base.Outcome.{value}
use smithproxy.Auth.{
  Inet, IsInet, c_string, strncpy, copied, address_bytes, logon_info, record_size, row_ip,
  row_username, row_groups, username_sz, groups_sz,
}

abbrev pub ZeroFree : Text → Type 0
ZeroFree u = All (λ c. c ≢ 0) u

-- What strncpy writes: the text, cut at `n`, and zeros up to `n`.
abbrev padded : Text → ℕ → List ℕ
padded u zero = []
padded [] (suc n) = 0 ∷ padded [] n
padded (c ∷ u) (suc n) = c ∷ padded u n

strncpy-padded :
    (dest : List ℕ) (u : Text) (n : ℕ)
    → n ≤ length dest
    → strncpy dest u n ≡ padded u n ++ drop n dest
unfolding strncpy
strncpy-padded dest u zero h = refl
strncpy-padded [] u (suc n) h = absurd (omega arith)
strncpy-padded (b ∷ dest) [] (suc n) h = ap (◌∷◌ 0) (strncpy-padded dest [] n (omega arith))
strncpy-padded (b ∷ dest) (c ∷ u) (suc n) h = ap (◌∷◌ c) (strncpy-padded dest u n (omega arith))

length-padded : (u : Text) (n : ℕ) → length (padded u n) ≡ n
length-padded u zero = refl
length-padded [] (suc n) = ap suc (length-padded [] n)
length-padded (c ∷ u) (suc n) = ap suc (length-padded u n)

-- The text read back is cut at `n`; a zero byte stands behind what was written.
c_string-padded :
    (u : Text) (n : ℕ) (rest : List ℕ)
    → ZeroFree u
    → c_string (padded u n ++ 0 ∷ rest) ≡ value (take n u)
unfolding c_string
c_string-padded u zero rest h = refl
c_string-padded [] (suc n) rest h = refl
c_string-padded (c ∷ u) (suc n) rest h = rw (ne→==_false c 0 h.0, c_string-padded u n rest h.1) refl

drop-zeros : (n m : ℕ) → drop n (replicate {A = ℕ} (n + m) 0) ≡ replicate m 0
drop-zeros zero m = ap (λ k. replicate {A = ℕ} k 0) (omega arith)
drop-zeros (suc n) m = ap (λ k. drop (suc n) (replicate {A = ℕ} k 0)) (suc_out n m) ∙ drop-zeros n m
  where
    suc_out : (n m : ℕ) → suc n + m ≡ suc (n + m)
    suc_out n m = omega arith

module _ (inet : Inet) (size : ℕ) where
  copied-append :
      (xs ys : List ℕ) (at : ℕ) (u : Text) (n : ℕ)
      → length xs ≡ at
      → n ≤ length ys
      → copied inet size (xs ++ ys) at u n ≡ xs ++ padded u n ++ drop n ys
  unfolding copied
  copied-append xs ys at u n e h =
      rw
        (
          ap (λ k. take k (xs ++ ys)) (sym e) ∙ take-append xs ys,
          ap (λ k. drop k (xs ++ ys)) (sym e) ∙ drop-append xs ys,
          strncpy-padded ys u n h,
        )
        (sym (append_assoc xs (padded u n) (drop n ys)))

  -- The address, the user and the groups, each text with a zero behind it.
  laid_out : List ℕ → Text → Text → List ℕ
  laid_out a u g = a ++ (padded u (username_sz - 1) ++ 0 ∷ (padded g (groups_sz - 1) ++ 0 ∷ []))

  logon_info-laid_out :
      (i u g : Text) (a : List ℕ)
      → inet.pton size i ≡ some a
      → length a ≡ size
      → logon_info inet size i u g ≡ laid_out a u g
  unfolding logon_info address_bytes record_size laid_out
  logon_info-laid_out i u g a e h =
      ap (λ row. second (copied inet size row size u 63)) zeroed
      ∙ ap second (copied-append a (replicate 192 0) size u 63 h (omega arith))
      ∙ ap second (sym (append_assoc (a ++ padded u 63) (0 ∷ []) (replicate 128 0)))
      ∙ copied-append ((a ++ padded u 63) ++ 0 ∷ []) (replicate 128 0) (size + 64) g 127
          (omega (
            arith,
            length-append (a ++ padded u 63) (0 ∷ []),
            length-append a (padded u 63),
            length-padded u 63,
          ))
          (omega arith)
      ∙ regroup
    where
      second : List ℕ → List ℕ
      second row = copied inet size row (size + 64) g 127

      zeroed :
          address_bytes inet size (inet.pton size i) (replicate (size + 64 + 128) 0)
          ≡ a ++ replicate 192 0
      zeroed = rw e (
          ap (λ k. a ++ drop size (replicate {A = ℕ} k 0)) (omega arith)
          ∙ ap (λ t. a ++ t) (drop-zeros size 192))

      regroup :
          (((a ++ padded u 63) ++ 0 ∷ []) ++ padded g 127) ++ 0 ∷ []
          ≡ a ++ (padded u 63 ++ 0 ∷ (padded g 127 ++ 0 ∷ []))
      regroup = simp append_assoc

  -- A row made for an address that inet_pton reads has this address; its user and its groups are
  -- the texts given, cut at 63 and at 127 characters.
  pub logon_info-fields :
      (laws : IsInet inet) (i u g : Text) (a : List ℕ)
      → inet.pton size i ≡ some a
      → ZeroFree u
      → ZeroFree g
      → (row_ip inet size (logon_info inet size i u g) ≡ inet.ntop size a)
        × (row_username inet size (logon_info inet size i u g) ≡ value (take 63 u))
        × (row_groups inet size (logon_info inet size i u g) ≡ value (take 127 g))
  unfolding row_ip row_username row_groups laid_out
  logon_info-fields laws i u g a e fu fg = rw (logon_info-laid_out i u g a e h) (
    ap (λ k. inet.ntop size (take k (a ++ user))) (sym h)
        ∙ ap (inet.ntop size) (take-append a user),
    ap c_string (behind_address) ∙ c_string-padded u 63 (padded g 127 ++ 0 ∷ []) fu,
    ap c_string (behind_user) ∙ c_string-padded g 127 [] fg,
  )
    where
      h : length a ≡ size
      h = laws.sized size i a e

      user : List ℕ
      user = padded u 63 ++ 0 ∷ (padded g 127 ++ 0 ∷ [])

      behind_address : drop size (a ++ user) ≡ user
      behind_address = ap (λ k. drop k (a ++ user)) (sym h) ∙ drop-append a user

      front : a ++ user ≡ ((a ++ padded u 63) ++ 0 ∷ []) ++ (padded g 127 ++ 0 ∷ [])
      front = simp append_assoc

      behind_user : drop (size + 64) (a ++ user) ≡ padded g 127 ++ 0 ∷ []
      behind_user =
          ap (drop (size + 64)) front
          ∙ ap (λ k. drop k (((a ++ padded u 63) ++ 0 ∷ []) ++ (padded g 127 ++ 0 ∷ [])))
              (omega (
                arith,
                length-append (a ++ padded u 63) (0 ∷ []),
                length-append a (padded u 63),
                length-padded u 63,
                h,
              ))
          ∙ drop-append ((a ++ padded u 63) ++ 0 ∷ []) (padded g 127 ++ 0 ∷ [])
