-- ===== src/Peer/Files/Container.antt =====
-- The encrypted form of a file, written and read (src/services/CryptoService.ts, lines 219-321).
use nonetchat_web.Prelude.{
  ℕ, suc, ◌+◌, ◌≡◌, refl, some, [], ◌∷◌, ◌++◌, ap, ◌∙◌, sym, length, take, drop, arith,
}
use nonetchat_web.Peer.Files.{Bytes, FileCode, encrypt_file, decrypt_file, uint32_le}

take-append : (xs ys : Bytes) → take (length xs) (xs ++ ys) ≡ xs
take-append [] ys = refl
take-append (x ∷ xs) ys = ap (◌∷◌ x) (take-append xs ys)

drop-append : (xs ys : Bytes) → drop (length xs) (xs ++ ys) ≡ ys
drop-append [] ys = refl
drop-append (x ∷ xs) ys = drop-append xs ys

drop-append_more : (xs ys : Bytes) (n : ℕ) → drop (length xs + n) (xs ++ ys) ≡ drop n ys
drop-append_more [] ys n = ap (λ k. drop k ys) (omega arith)
drop-append_more (x ∷ xs) ys n =
    let e : suc (length xs) + n ≡ suc (length xs + n) = omega arith in
    ap (λ k. drop k ((x ∷ xs) ++ ys)) e ∙ drop-append_more xs ys n

-- An encrypted file is decrypted to the file. The key has 32 bytes and the initialisation vector 12,
-- the cipher opens what it sealed under them, and what was compressed is decompressed to itself.
pub decrypt_file-encrypt_file :
    (f : FileCode) (key iv file : Bytes)
    → length iv ≡ 12
    → length key ≡ 32
    → ((plain : Bytes) → f.unseal key iv (f.seal key iv plain) ≡ some plain)
    → ((plain : Bytes) → f.decompress (f.compress plain) ≡ plain)
    → decrypt_file f (encrypt_file f key iv file) ≡ some file
unfolding decrypt_file encrypt_file
decrypt_file-encrypt_file f key iv file twelve thirty_two opens unpacks =
    let body = f.seal key iv (f.compress file) in
    let after_key = uint32_le (length file) ++ body in
    let blob = iv ++ (key ++ after_key) in
    let the_iv : take 12 blob ≡ iv =
      ap (λ n. take n blob) (sym twelve) ∙ take-append iv (key ++ after_key) in
    let past_iv : drop 12 blob ≡ key ++ after_key =
      ap (λ n. drop n blob) (sym twelve) ∙ drop-append iv (key ++ after_key) in
    let the_key : take 32 (drop 12 blob) ≡ key =
      ap (take 32) past_iv
      ∙ ap (λ n. take n (key ++ after_key)) (sym thirty_two)
      ∙ take-append key after_key in
    let forty_eight : 48 ≡ length iv + (length key + 4) = omega (arith, twelve, thirty_two) in
    let the_body : drop 48 blob ≡ body =
      ap (λ n. drop n blob) forty_eight
      ∙ drop-append_more iv (key ++ after_key) (length key + 4)
      ∙ drop-append_more key after_key 4 in
    rw the_iv (rw the_key (rw the_body (rw (opens (f.compress file)) (ap some (unpacks file)))))
