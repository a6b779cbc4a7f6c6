-- ===== src/Archive/Sealing/Pieces.antt =====
-- The loop of `OnEncryptFile`: piece after piece, it writes the whole text as if it were enciphered at
-- once.
use sec_pro_gis.Base.{◌>>=◌, ℕ, zero, suc, ◌+◌, ◌-◌, ◌*◌, ◌≤◌, ◌<◌, Option, some, List, []}
use sec_pro_gis.Base.{
  ◌++◌, append-nil, append_assoc, length, take, drop, replicate, ltb, if◌then◌else◌,
}
use sec_pro_gis.Base.{
  ◌≡◌, refl, sym, ap, ap₂, ◌∙◌, subst, arith, length-append, length-take, length-drop,
}
use sec_pro_gis.Base.{
  length-replicate, take_all, drop_all, take-append_at, lt→ltb, take-append-drop, drop-drop,
  drop-length-take, take_nil,
}
use native.Mathlib.Decide.{dec_le}
use sec_pro_gis.Sm4
use sec_pro_gis.Sm4.{setkey_enc, sm4_encrypt}
use sec_pro_gis.Sm4.Keys.{schedule, setkey_enc-schedule, length-setkey_enc}
use sec_pro_gis.Sm4.Modes.{crypt_ecb_16}
use sec_pro_gis.Sm4.Modes.Ecb.{ecb_16, crypt_ecb_16-blocks, length-ecb_16, ecb_16-append}
use sec_pro_gis.Sm3.{write_at}
use sec_pro_gis.Archive.Files.{Files, Disk, overwrite}
use sec_pro_gis.Archive.Sealing.{enc_block_size, encrypt_loop}

enc_block_size-eq : enc_block_size ≡ 6400 * 16
unfolding enc_block_size
enc_block_size-eq = refl

module _ (files : Files) where
  -- The next write goes to the end of `front`, or past a gap that belongs to it.
  abbrev pub Ends : files.File → List ℕ → Type 0
  Ends f front =
      let d = files.view f in
      (length d.bytes ≤ d.position)
      × (d.bytes ++ replicate (d.position - length d.bytes) files.gap ≡ front)

  -- The file holds these bytes, and its position is their end.
  abbrev pub Written : files.File → List ℕ → Type 0
  Written f content = files.view f ≡ record { bytes = content; position = length content }

  overwrite-end :
      (d : Disk) (front new : List ℕ) (gap : ℕ)
      → length d.bytes ≤ d.position
      → d.bytes ++ replicate (d.position - length d.bytes) gap ≡ front
      → (overwrite gap d new ≡ front ++ new) × (d.position ≡ length front)
  overwrite-end d front new gap le is_front =
      let size : length front ≡ d.position =
        sym (ap length is_front)
        ∙ length-append d.bytes (replicate (d.position - length d.bytes) gap)
        ∙ omega (arith, length-replicate {A = ℕ} (d.position - length d.bytes) gap) in
      (
        ap₂ ◌++◌ (ap (take d.position) is_front ∙ take_all d.position front (omega arith)) (
            ap (λ (t : List ℕ). new ++ t) (drop_all (d.position + length new) d.bytes (omega arith))
            ∙ append-nil new),
        sym size,
      )

  pub write-Written :
      (f : files.File) (front new : List ℕ)
      → Ends f front
      → 0 < length new
      → Written (files.write f new) (front ++ new)
  write-Written f front new h some_new =
      let over = overwrite-end (files.view f) front new files.gap h.0 h.1 in
      files.view-write f new some_new ∙ λ i. record {
        bytes = over.0 i;
        position = (ap (λ (t : ℕ). t + length new) over.1 ∙ sym (length-append front new)) i;
      }

  pub Written-Ends : (f : files.File) (front : List ℕ) → Written f front → Ends f front
  Written-Ends f front h =
      let bytes_are = ap Disk.bytes h in
      let position_is = ap Disk.position h in
      (
        omega (arith, ap length bytes_are, position_is),
        ap₂ (λ (b : List ℕ) (p : ℕ). b ++ replicate (p - length b) files.gap) bytes_are position_is
            ∙ ap (λ (t : ℕ). front ++ replicate t files.gap) {x = length front - length front}
                {y = 0} (omega arith)
            ∙ append-nil front,
      )

-- The output buffer after a piece.
filled : List ℕ → List ℕ → List ℕ → List ℕ
filled key chunk output = ecb_16 (schedule key) chunk ++ drop (length chunk) output

length-filled :
    (key chunk output : List ℕ)
    → length chunk ≤ length output
    → length (filled key chunk output) ≡ length output
unfolding filled
length-filled key chunk output h =
    length-append (ecb_16 (schedule key) chunk) (drop (length chunk) output)
    ∙ omega (arith, length-ecb_16 (schedule key) chunk, length-drop (length chunk) output)

take-filled :
    (key chunk output : List ℕ)
    → take (length chunk) (filled key chunk output) ≡ ecb_16 (schedule key) chunk
unfolding filled
take-filled key chunk output =
    take-append_at (length chunk) (ecb_16 (schedule key) chunk) (drop (length chunk) output)
      (length-ecb_16 (schedule key) chunk)

length-write_at :
    (buffer chunk : List ℕ)
    → length chunk ≤ length buffer
    → length (write_at buffer 0 chunk) ≡ length buffer
length-write_at buffer chunk h =
    length-append chunk (drop (0 + length chunk) buffer)
    ∙ omega (arith, length-drop (0 + length chunk) buffer)

-- A piece is enciphered by itself.
piece-filled :
    (ctx : Sm4.Context) (key receive output chunk : List ℕ)
    → length ctx.sk ≡ 32
    → length chunk ≤ length output
    → crypt_ecb_16 (setkey_enc ctx key) sm4_encrypt (length chunk) (write_at receive 0 chunk) output
      ≡ some (filled key chunk output)
unfolding filled
piece-filled ctx key receive output chunk h le =
    let whole = write_at receive 0 chunk in
    let size : length chunk ≤ length whole =
      omega (arith, length-append chunk (drop (0 + length chunk) receive)) in
    crypt_ecb_16-blocks (setkey_enc ctx key) sm4_encrypt (length chunk) whole output size le
    ∙ ap₂ (λ (sk c : List ℕ). some (ecb_16 sk c ++ drop (length chunk) output))
        (setkey_enc-schedule ctx key h)
        (take-append_at (length chunk) chunk (drop (0 + length chunk) receive) refl)

module _ (files : Files) where
  -- The loop, given what `Read` returned.
  round :
      ℕ
      → List ℕ
      → Sm4.Context
      → List ℕ
      → List ℕ
      → List ℕ
      → files.File
      → files.File
      → Option files.File
  round fuel key ctx receive output chunk plain cipher =
      let rest =
        crypt_ecb_16 (setkey_enc ctx key) sm4_encrypt (length chunk) (write_at receive 0 chunk)
          output
        >>= λ output'.
            encrypt_loop files fuel key (setkey_enc ctx key) (write_at receive 0 chunk) output'
              plain (files.write cipher (take (length chunk) output')) in
      if ltb 0 (length chunk) then rest else some cipher

  encrypt_loop-round :
      (fuel : ℕ) (key : List ℕ) (ctx : Sm4.Context) (receive output : List ℕ)
      → (plain cipher : files.File)
      → encrypt_loop files (suc fuel) key ctx receive output plain cipher
        ≡ round fuel key ctx receive output
            (files.read plain enc_block_size).0
            (files.read plain enc_block_size).1
            cipher
  unfolding encrypt_loop round
  encrypt_loop-round fuel key ctx receive output plain cipher = refl

  round_done :
      (fuel : ℕ) (key : List ℕ) (ctx : Sm4.Context) (receive output : List ℕ)
      → (plain cipher : files.File)
      → round fuel key ctx receive output [] plain cipher ≡ some cipher
  unfolding round
  round_done fuel key ctx receive output plain cipher = refl

  round_more :
      (fuel : ℕ) (key : List ℕ) (ctx : Sm4.Context) (receive output chunk : List ℕ)
      → (plain cipher : files.File) → length ctx.sk ≡ 32
      → 0 < length chunk
      → length chunk ≤ length output
      → round fuel key ctx receive output chunk plain cipher
        ≡ encrypt_loop files fuel key
            (setkey_enc ctx key)
            (write_at receive 0 chunk)
            (filled key chunk output)
            plain
            (files.write cipher (ecb_16 (schedule key) chunk))
  unfolding round
  round_more fuel key ctx receive output chunk plain cipher h some_bytes le =
      let go : List ℕ → List ℕ → Option files.File = λ output' written.
        encrypt_loop files fuel key (setkey_enc ctx key) (write_at receive 0 chunk) output' plain
          (files.write cipher written) in
      rw (lt→ltb 0 (length chunk) some_bytes) (
        ap (λ (o : Option (List ℕ)). o >>= λ output'. go output' (take (length chunk) output'))
          (piece-filled ctx key receive output chunk h le)
        ∙ ap (go (filled key chunk output)) (take-filled key chunk output))

  -- What is left to read of a file.
  abbrev pub left : files.File → List ℕ
  left f = drop (files.view f).position (files.view f).bytes

  left-read :
      (f : files.File) (n : ℕ) (rest : List ℕ)
      → left f ≡ rest
      → ((files.read f n).0 ≡ take n rest) × (left (files.read f n).1 ≡ drop n rest)
  left-read f n rest h =
      let got : (files.read f n).0 ≡ take n rest = files.read-eq f n ∙ ap (take n) h in
      (
        got,
        ap (λ (d : Disk). drop d.position d.bytes) (files.view-read f n)
            ∙ sym
                (drop-drop (length (files.read f n).0) (files.view f).position (files.view f).bytes)
            ∙ ap₂ (λ (c t : List ℕ). drop (length c) t) got h
            ∙ drop-length-take n rest,
      )

  -- At the end of the plain file, the loop returns.
  pub encrypt_loop_end :
      (fuel : ℕ) (key : List ℕ) (ctx : Sm4.Context) (receive output : List ℕ)
      → (plain cipher : files.File) → 0 < fuel
      → left plain ≡ []
      → encrypt_loop files fuel key ctx receive output plain cipher ≡ some cipher
  encrypt_loop_end zero key ctx receive output plain cipher h e = absurd (omega arith)
  encrypt_loop_end (suc fuel) key ctx receive output plain cipher h e =
      let plain' = (files.read plain enc_block_size).1 in
      encrypt_loop-round fuel key ctx receive output plain cipher
      ∙ ap (λ (c : List ℕ). round fuel key ctx receive output c plain' cipher)
          ((left-read plain enc_block_size [] e).0 ∙ take_nil enc_block_size)
      ∙ round_done fuel key ctx receive output plain' cipher

  -- Otherwise it writes one piece and goes on.
  encrypt_loop_step :
      (fuel : ℕ) (key : List ℕ) (ctx : Sm4.Context) (receive output rest : List ℕ)
      → (plain cipher : files.File) → 0 < length rest
      → length ctx.sk ≡ 32
      → length output ≡ enc_block_size
      → left plain ≡ rest
      → let chunk = take enc_block_size rest in
        encrypt_loop files (suc fuel) key ctx receive output plain cipher
        ≡ encrypt_loop files fuel key
            (setkey_enc ctx key)
            (write_at receive 0 chunk)
            (filled key chunk output)
            (files.read plain enc_block_size).1
            (files.write cipher (ecb_16 (schedule key) chunk))
  encrypt_loop_step fuel key ctx receive output rest plain cipher ne hs ho hl =
      let chunk = take enc_block_size rest in
      let plain' = (files.read plain enc_block_size).1 in
      let size = length-take enc_block_size rest in
      encrypt_loop-round fuel key ctx receive output plain cipher
      ∙ ap (λ (c : List ℕ). round fuel key ctx receive output c plain' cipher)
          (left-read plain enc_block_size rest hl).0
      ∙ round_more fuel key ctx receive output chunk plain' cipher hs
          (omega (arith, enc_block_size-eq, size)) (omega (arith, size))

  -- The loop returns after at most as many rounds as bytes are left, and one more. When some are
  -- left, the schedule and the output buffer have their sizes, and the next write goes to the end of
  -- `front`, it leaves `front` and behind it the rest of the plain file as `sm_crypt_ecb_16` enciphers
  -- it at once.
  pub encrypt_loop-Written :
      (fuel : ℕ) (key : List ℕ) (ctx : Sm4.Context) (receive output front rest : List ℕ)
      → (plain cipher : files.File) → length rest < fuel
      → 0 < length rest
      → length ctx.sk ≡ 32
      → length output ≡ enc_block_size
      → left plain ≡ rest
      → Ends files cipher front
      → (c : files.File) × (encrypt_loop files fuel key ctx receive output plain cipher ≡ some c)
        × Written files c (front ++ ecb_16 (schedule key) rest)
  encrypt_loop-Written zero key ctx receive output front rest plain cipher fu ne hs ho hl hc =
      absurd (omega arith)
  encrypt_loop-Written (suc fuel) key ctx receive output front rest plain cipher fu ne hs ho hl hc =
      let sk = schedule key in
      let chunk = take enc_block_size rest in
      let size = length-take enc_block_size rest in
      let cipher' = files.write cipher (ecb_16 sk chunk) in
      let plain' = (files.read plain enc_block_size).1 in
      let step = encrypt_loop_step fuel key ctx receive output rest plain cipher ne hs ho hl in
      let after : left plain' ≡ drop enc_block_size rest =
        (left-read plain enc_block_size rest hl).1 in
      let written : Written files cipher' (front ++ ecb_16 sk chunk) =
        write-Written files cipher front (ecb_16 sk chunk) hc
          (omega (arith, length-ecb_16 sk chunk, enc_block_size-eq, size)) in
      elim (dec_le (length rest) enc_block_size) [
        | yes short ↦ (
          cipher',
          step
              ∙ encrypt_loop_end fuel key (setkey_enc ctx key) (write_at receive 0 chunk)
                  (filled key chunk output) plain' cipher' (omega arith)
                  (after ∙ drop_all enc_block_size rest short),
          subst (λ (t : List ℕ). Written files cipher' (front ++ ecb_16 sk t))
              (take_all enc_block_size rest short) written,
        )
        | no long ↦
            let next =
              encrypt_loop-Written fuel key (setkey_enc ctx key) (write_at receive 0 chunk)
                (filled key chunk output) (front ++ ecb_16 sk chunk) (drop enc_block_size rest)
                plain' cipher' (omega (arith, length-drop enc_block_size rest, enc_block_size-eq))
                (omega (arith, length-drop enc_block_size rest)) (length-setkey_enc ctx key hs)
                (length-filled key chunk output (omega (arith, size)) ∙ ho) after
                (Written-Ends files cipher' (front ++ ecb_16 sk chunk) written) in
            (
              next.0,
              step ∙ next.1,
              subst (Written files next.0)
                  (append_assoc front (ecb_16 sk chunk) (ecb_16 sk (drop enc_block_size rest))
                    ∙ ap (λ (t : List ℕ). front ++ t)
                        (sym (
                            ecb_16-append sk chunk (drop enc_block_size rest) 6400
                              (omega (arith, size, enc_block_size-eq)))
                          ∙ ap (ecb_16 sk) (take-append-drop enc_block_size rest)))
                  next.2,
            )
      ]
