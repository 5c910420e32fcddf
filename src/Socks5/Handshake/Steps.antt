-- ===== src/Socks5/Handshake/Steps.antt =====
-- What each part of the handshake reads and writes (transport/socks5/socks5.go).
use mathlib.Core.List.{append-nil}
use mathlib.Core.Option.{some-injective}
use clash_for_android.Prelude.{
  ℕ, ◌+◌, ◌%◌, ◌<◌, ◌≡◌, refl, ap, Bool, true, false, [], ◌∷◌, ◌++◌, Bytes, none, some, ◌==◌,
  if◌then◌else◌, Bool-cases, none-ne-some, subst, leb, length, arith, inl, inr,
}
use clash_for_android.Socks5.Session.{
  Session, receive, transmit, Says, give-Says, receive-Says, transmit-Says, >>=-Says,
}
use clash_for_android.Socks5.Address.{
  byte_at, read_fixed, read_domain, read_typed, read_addr, max_addr_len, addr_len,
}
use clash_for_android.Socks5.Address.Udp.{IsAddr, addr_len-IsAddr}
use clash_for_android.Socks5.Handshake.{
  Authenticator, authenticate, User, auth_message, read_user, read_password, verified,
}

-- A step that gives its value at once is the rest.
pub read_fixed-Says :
    (aty n : ℕ) (bs : Bytes) → length bs ≡ n → Says (read_fixed aty n) (bs ++ []) [] (aty ∷ bs)
read_fixed-Says aty n bs e =
    >>=-Says (receive n) _ bs [] [] [] bs (aty ∷ bs) (receive-Says n bs e) (give-Says (aty ∷ bs))

pub cast-Says :
    {A : Type 0} (m : Session A) (r r' w w' : Bytes) (a : A)
    → r ≡ r'
    → w ≡ w'
    → Says m r w a
    → Says m r' w' a
cast-Says m r r' w w' a e f h =
    subst (λ (x : Bytes). Says m x w' a) e (subst (λ (x : Bytes). Says m r x a) f h)

pub read_domain-Says :
    (aty n : ℕ) (bs : Bytes)
    → length bs ≡ n + 2
    → Says (read_domain aty) (n ∷ bs ++ []) [] (aty ∷ n ∷ bs)
read_domain-Says aty n bs e =
    >>=-Says (receive 1) _ (n ∷ []) [] (bs ++ []) [] (n ∷ []) (aty ∷ n ∷ bs)
      (receive-Says 1 (n ∷ []) refl)
      (>>=-Says (receive (n + 2)) _ bs [] [] [] bs (aty ∷ n ∷ bs) (receive-Says (n + 2) bs e)
        (give-Says (aty ∷ n ∷ bs)))

pub read_typed-Says :
    (aty : ℕ) (bs : Bytes)
    → addr_len (aty ∷ bs) ≡ some (length (aty ∷ bs))
    → Says (read_typed aty) (bs ++ []) [] (aty ∷ bs)
read_typed-Says aty bs e = elim (Bool-cases (aty == 3)) [
  | inl name ↦ rw name (domain bs (rw name at e))
  | inr other ↦ elim (Bool-cases (aty == 1)) [
    | inl four ↦ rw (other, four) (read_fixed-Says aty 6 bs (size 6 bs (rw (other, four) at e)))
    | inr not_four ↦ elim (Bool-cases (aty == 4)) [
      | inl six ↦
          rw (other, not_four, six)
            (read_fixed-Says aty 18 bs (size 18 bs (rw (other, not_four, six) at e)))
      | inr unknown ↦ absurd (none-ne-some refl (rw (other, not_four, unknown) at e))
    ]
  ]
]
  where
    size : (n : ℕ) (bs : Bytes) → some (n + 1) ≡ some (length (aty ∷ bs)) → length bs ≡ n
    size n bs h = let k = some-injective _ _ h in omega arith

    domain :
        (bs : Bytes)
        → (if leb 1 (length bs) then some (1 + 1 + byte_at 0 bs + 2) else none)
          ≡ some (length (aty ∷ bs))
        → Says (read_domain aty) (bs ++ []) [] (aty ∷ bs)
    domain [] h = absurd (none-ne-some refl h)
    domain (n ∷ rest) h = read_domain-Says aty n rest (
        let one : leb 1 (length (n ∷ rest)) ≡ true = ground arith in
        let k : 1 + 1 + n + 2 ≡ length (aty ∷ n ∷ rest) = some-injective _ _ (rw one at h) in
        omega arith)

-- An address is read as it is.
pub read_addr-Says : (a : Bytes) → IsAddr a → Says (read_addr max_addr_len) a [] a
unfolding read_addr
read_addr-Says [] h = absurd (none-ne-some refl (addr_len-IsAddr [] h))
read_addr-Says (aty ∷ bs) h =
    cast-Says (read_addr max_addr_len) (aty ∷ bs ++ []) (aty ∷ bs) [] [] (aty ∷ bs)
      (append-nil (aty ∷ bs)) refl
      (>>=-Says (receive 1) _ (aty ∷ []) [] (bs ++ []) [] (aty ∷ []) (aty ∷ bs)
        (receive-Says 1 (aty ∷ []) refl) (read_typed-Says aty bs (addr_len-IsAddr (aty ∷ bs) h)))

-- A name and a password whose lengths fit a byte, neither of them empty.
pub record IsCredential (u : User) : Type 0 where
  pub some_name : 0 < length u.username
  pub short_name : length u.username < 256
  pub some_password : 0 < length u.password
  pub short_password : length u.password < 256

pub verified-Says :
    (user : Bytes) (b : Bool) → b ≡ true → Says (verified user b) [] (1 ∷ 0 ∷ []) user
verified-Says user true e =
    >>=-Says (transmit (1 ∷ 0 ∷ [])) _ [] (1 ∷ 0 ∷ []) [] [] 2 user (transmit-Says (1 ∷ 0 ∷ []))
      (give-Says user)
verified-Says user false e = cc

pub read_password-Says :
    (auth : Authenticator) (user pass : Bytes)
    → 0 < length pass
    → auth user pass ≡ true
    → Says (read_password auth user (length pass)) (pass ++ []) (1 ∷ 0 ∷ []) user
read_password-Says auth user [] h valid = absurd (omega arith)
read_password-Says auth user (x ∷ xs) h valid =
    >>=-Says (receive (length (x ∷ xs))) _ (x ∷ xs) [] [] (1 ∷ 0 ∷ []) (x ∷ xs) user
      (receive-Says (length (x ∷ xs)) (x ∷ xs) refl) (verified-Says user (auth user (x ∷ xs)) valid)

pub read_user-Says :
    (auth : Authenticator) (user pass : Bytes)
    → 0 < length user
    → 0 < length pass
    → length pass < 256
    → auth user pass ≡ true
    → Says
        (read_user auth (length user))
        (user ++ (length pass % 256 ∷ (pass ++ [])))
        (1 ∷ 0 ∷ [])
        user
read_user-Says auth [] pass h k small valid = absurd (omega arith)
read_user-Says auth (x ∷ xs) pass h k small valid =
    let size : length pass % 256 ≡ length pass = omega arith in
    >>=-Says (receive (length (x ∷ xs))) _ (x ∷ xs) [] (length pass % 256 ∷ (pass ++ []))
      (1 ∷ 0 ∷ []) (x ∷ xs) (x ∷ xs) (receive-Says (length (x ∷ xs)) (x ∷ xs) refl)
      (>>=-Says (receive 1) _ (length pass % 256 ∷ []) [] (pass ++ []) (1 ∷ 0 ∷ [])
        (length pass % 256 ∷ []) (x ∷ xs) (receive-Says 1 (length pass % 256 ∷ []) refl)
        (rw size (read_password-Says auth (x ∷ xs) pass k valid)))

pub authenticate-Says :
    (auth : Authenticator) (u : User)
    → IsCredential u
    → auth u.username u.password ≡ true
    → Says (authenticate (some auth)) (auth_message u) (5 ∷ 2 ∷ 1 ∷ 0 ∷ []) u.username
unfolding auth_message
authenticate-Says auth u c valid =
    let size : length u.username % 256 ≡ length u.username = omega (arith, c.short_name) in
    let header = 1 ∷ length u.username % 256 ∷ [] in
    let tail = u.username ++ (length u.password % 256 ∷ (u.password ++ [])) in
    cast-Says (authenticate (some auth)) (header ++ tail) (auth_message u) (5 ∷ 2 ∷ 1 ∷ 0 ∷ [])
      (5 ∷ 2 ∷ 1 ∷ 0 ∷ []) u.username
      (ap (λ (p : Bytes). header ++ (u.username ++ (length u.password % 256 ∷ p)))
        (append-nil u.password))
      refl
      (>>=-Says (transmit (5 ∷ 2 ∷ [])) _ [] (5 ∷ 2 ∷ []) (header ++ tail) (1 ∷ 0 ∷ []) 2 u.username
        (transmit-Says (5 ∷ 2 ∷ []))
        (>>=-Says (receive 2) _ header [] tail (1 ∷ 0 ∷ []) header u.username
          (receive-Says 2 header refl)
          (rw size (
            read_user-Says auth u.username u.password c.some_name c.some_password c.short_password
              valid))))
