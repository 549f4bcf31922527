-- ===== src/Xor/Laws.antt =====
-- `XorReader` as a reader of the unmasked bytes.
use rusty_bitcoin_explorer.Common.{
  ℕ, ◌+◌, ◌≤◌, ◌<◌, ◌≡◌, refl, sym, ap, ◌∙◌, Option, none, some, List, [], ◌∷◌, ◌++◌, length, drop,
  drop-append_left, All, arith, ◌⊎◌, inl, inr,
}
use rusty_bitcoin_explorer.Common.Words.{IsByte}
use rusty_bitcoin_explorer.Error.{ok}
use rusty_bitcoin_explorer.Reader.{Read}
use rusty_bitcoin_explorer.Xor.{
  XorReader, start, Seek, unmask, advance, read, fill_buf, refill, consume, seek, new,
}
use rusty_bitcoin_explorer.Xor.Bytes.{
  IsMaskOption, unmask-append, length-unmask, unmask-drop, unmask-nil,
}

module _ {R : Type 0} (r : Read R) where
  -- The unmasked bytes that are to come from the inner reader.
  abbrev pub plain_remaining : XorReader R → List ℕ
  plain_remaining s = unmask s.mask s.pos (r.remaining s.inner)

  advance_lem :
      (mask : Option (List ℕ)) (pos : ℕ) (bs rest : List ℕ)
      → unmask mask (pos + length bs) rest ≡ unmask mask (advance mask pos bs) rest
  advance_lem none pos bs rest = refl
  advance_lem (some mask) pos bs rest = refl

  nil_of_length : (bs cs : List ℕ) → length bs ≡ length cs → bs ≡ [] → cs ≡ []
  nil_of_length bs [] h e = refl
  nil_of_length bs (c ∷ cs) h e = absurd (omega (arith, ap length e))

  -- The law of a reader, for the unmasked bytes.
  pub read_some :
      (n : ℕ) (s : XorReader R)
      → (bs : List ℕ) × (s' : XorReader R) × (read r n s ≡ ok (bs, s'))
        × (plain_remaining s ≡ bs ++ plain_remaining s')
        × (length bs ≤ n)
        × (0 < n → bs ≡ [] → plain_remaining s ≡ [])
  unfolding read
  read_some n s =
      let (bs, inner', run, split, short, ending) = r.read_some n s.inner in
      let s' : XorReader R = record s { inner = inner'; pos = advance s.mask s.pos bs } in
      let out = unmask s.mask s.pos bs in
      (
        out,
        s',
        rw (run, read),
        ap (unmask s.mask s.pos) split
            ∙ unmask-append s.mask s.pos bs (r.remaining inner')
            ∙ ap (◌++◌ out) (advance_lem s.mask s.pos bs (r.remaining inner')),
        omega (arith, length-unmask s.mask s.pos bs),
        λ pos nothing.
            let e : bs ≡ [] = nil_of_length out bs (length-unmask s.mask s.pos bs) nothing in
            nil_of_length (r.remaining s.inner) (plain_remaining s)
              (sym (length-unmask s.mask s.pos (r.remaining s.inner))) (ending pos e),
      )

  -- However the inner reader cuts its bytes into pieces, a read into a buffer that is not empty
  -- returns, gives the next unmasked bytes, at most as many as the buffer holds, and gives at least
  -- one unless nothing is left.
  pub read_plain :
      (n : ℕ) (s : XorReader R)
      → 0 < n
      → (bs : List ℕ) × (s' : XorReader R) × (read r n s ≡ ok (bs, s'))
        × (plain_remaining s ≡ bs ++ plain_remaining s')
        × (length bs ≤ n)
        × ((plain_remaining s ≡ []) ⊎ (0 < length bs))
  read_plain n s pos =
      let (bs, s', run, split, short, ending) = read_some n s in
      (bs, s', run, split, short, some_or_end bs (ending pos))
    where
      some_or_end :
          (out : List ℕ)
          → (out ≡ [] → plain_remaining s ≡ [])
          → (plain_remaining s ≡ []) ⊎ (0 < length out)
      some_or_end [] ending = inl (ending refl)
      some_or_end (b ∷ bs) ending = inr (omega arith)

  abbrev pub xor_read : Read (XorReader R)
  xor_read = record { remaining = plain_remaining; read = read r; read_some = read_some }

-- A file that was just opened: a seek from its start lands there, is reported there, and leaves the
-- bytes from there on.
pub record IsOpened {F : Type 0} (r : Read F) (k : Seek F) (disk : List ℕ) (f : F) : Type 0 where
  pub seeks :
      (p : ℕ)
      → (f' f'' : F) × (k.seek (start p) f ≡ (ok p, f'))
        × (k.stream_position f' ≡ (ok p, f''))
        × (r.remaining f'' ≡ drop p disk)

-- A new reader over a masked file, set to any position, is to give the plain bytes from there on,
-- with nothing buffered.
pub seek-new :
    {F : Type 0} (r : Read F) (k : Seek F) (mask : Option (List ℕ)) (plain : List ℕ) (f : F) (p : ℕ)
    → IsMaskOption mask
    → All IsByte plain
    → IsOpened r k (unmask mask 0 plain) f
    → (s : XorReader F) × (seek k (start p) (new f mask) ≡ (ok p, s))
      × (plain_remaining r s ≡ drop p plain)
      × (s.buffer ≡ [])
unfolding seek new
seek-new r k mask plain f p hm hp opened =
    let (f', f'', seeks, tells, left) = opened.seeks p in
    (
      record { inner = f''; pos = p; mask = mask; buffer = [] },
      rw (seeks, tells),
      ap (unmask mask p) left ∙ unmask-drop mask p plain hm hp,
      refl,
    )

module _ {F : Type 0} (r : Read F) where
  -- What a client of `fill_buf` and `consume` is to see: the buffer, and what comes behind it.
  abbrev pub buffered_remaining : XorReader F → List ℕ
  buffered_remaining s = s.buffer ++ plain_remaining r s

  -- A refill whose inner read gave some bytes.
  refilled : XorReader F → List ℕ → F → XorReader F
  refilled s [] inner' = record s { inner = inner' }
  refilled s (b ∷ bs) inner' = record s {
    inner = inner';
    pos = advance s.mask s.pos (b ∷ bs);
    buffer = unmask s.mask s.pos (b ∷ bs);
  }

  refill-ok :
      (s : XorReader F) (bs : List ℕ) (inner' : F)
      → s.buffer ≡ []
      → r.read 4096 s.inner ≡ ok (bs, inner')
      → fill_buf r s ≡ ok (unmask s.mask s.pos bs, refilled s bs inner')
  unfolding fill_buf refilled
  refill-ok s [] inner' empty run = rw (empty, run, refill, unmask-nil s.mask s.pos)
  refill-ok s (b ∷ bs) inner' empty run = rw (empty, run, refill)

  refilled-remaining :
      (s : XorReader F) (bs : List ℕ) (inner' : F)
      → s.buffer ≡ []
      → r.remaining s.inner ≡ bs ++ r.remaining inner'
      → ((refilled s bs inner').buffer ≡ unmask s.mask s.pos bs)
        × (buffered_remaining (refilled s bs inner') ≡ buffered_remaining s)
  unfolding refilled
  refilled-remaining s [] inner' empty split = (
    empty ∙ sym (unmask-nil s.mask s.pos),
    ap (λ l. s.buffer ++ unmask s.mask s.pos l) (sym split),
  )
  refilled-remaining s (b ∷ bs) inner' empty split = (
    refl,
    sym (
        ap (λ l. l ++ plain_remaining r s) empty
        ∙ ap (unmask s.mask s.pos) split
        ∙ unmask-append s.mask s.pos (b ∷ bs) (r.remaining inner')
        ∙ ap (◌++◌ (unmask s.mask s.pos (b ∷ bs)))
            (advance_lem r s.mask s.pos (b ∷ bs) (r.remaining inner'))),
  )

  fill_buf_of :
      (l : List ℕ) (s : XorReader F)
      → s.buffer ≡ l
      → (out : List ℕ) × (s' : XorReader F) × (fill_buf r s ≡ ok (out, s'))
        × (s'.buffer ≡ out)
        × (buffered_remaining s' ≡ buffered_remaining s)
        × (out ≡ [] → buffered_remaining s ≡ [])
  unfolding fill_buf
  fill_buf_of (b ∷ bs) s held = (b ∷ bs, s, rw held, held, refl, λ e. cc e)
  fill_buf_of [] s empty =
      let (bs, inner', run, split, _, ending) = r.read_some 4096 s.inner in
      let (holds, same) = refilled-remaining s bs inner' empty split in
      (
        unmask s.mask s.pos bs,
        refilled s bs inner',
        refill-ok s bs inner' empty run,
        holds,
        same,
        λ nothing.
            let e = nil_of_length r _ bs (length-unmask s.mask s.pos bs) nothing in
            ap (λ l. l ++ plain_remaining r s) empty
            ∙ nil_of_length r (r.remaining s.inner) (plain_remaining r s)
                (sym (length-unmask s.mask s.pos (r.remaining s.inner))) (ending (omega arith) e),
      )

  -- `fill_buf` returns the buffer that it leaves behind, loses nothing of what is to come, and
  -- returns no byte only at the end.
  pub fill_buf_returns :
      (s : XorReader F)
      → (out : List ℕ) × (s' : XorReader F) × (fill_buf r s ≡ ok (out, s'))
        × (s'.buffer ≡ out)
        × (buffered_remaining s' ≡ buffered_remaining s)
        × ((buffered_remaining s ≡ []) ⊎ (0 < length out))
  fill_buf_returns s =
      let (out, s', run, holds, same, ending) = fill_buf_of s.buffer s refl in
      (out, s', run, holds, same, some_or_end out ending)
    where
      some_or_end :
          (out : List ℕ)
          → (out ≡ [] → buffered_remaining s ≡ [])
          → (buffered_remaining s ≡ []) ⊎ (0 < length out)
      some_or_end [] ending = inl (ending refl)
      some_or_end (b ∷ bs) ending = inr (omega arith)

  -- To consume no more than `fill_buf` returned takes just those bytes off what is to come.
  pub consume-fill_buf :
      (s s' : XorReader F) (out : List ℕ) (amt : ℕ)
      → fill_buf r s ≡ ok (out, s')
      → amt ≤ length out
      → (s'' : XorReader F) × (consume amt s' ≡ ok s'')
        × (buffered_remaining s'' ≡ drop amt (buffered_remaining s))
  unfolding consume
  consume-fill_buf s s' out amt e h =
      let (out', t, run, holds, same, _) = fill_buf_of s.buffer s refl in
      let one : ◌≡◌ {A = List ℕ × XorReader F} (out', t) (out, s') = cc (run, e) in
      let outs : out' ≡ out = ap (λ (p : List ℕ × XorReader F). p.0) one in
      let states : t ≡ s' = ap (λ (p : List ℕ × XorReader F). p.1) one in
      let holds' : s'.buffer ≡ out =
        ap (λ (u : XorReader F). u.buffer) (sym states) ∙ holds ∙ outs in
      let same' : buffered_remaining s' ≡ buffered_remaining s =
        ap buffered_remaining (sym states) ∙ same in
      let fits : amt ≤ length s'.buffer = omega (arith, ap length holds') in
      (
        record s' { buffer = drop amt s'.buffer },
        ground arith,
        sym (drop-append_left amt s'.buffer (plain_remaining r s') fits) ∙ ap (drop amt) same',
      )

  read_buffer :
      (n : ℕ) (s s' : XorReader F) (out : List ℕ) → read r n s ≡ ok (out, s') → s'.buffer ≡ s.buffer
  unfolding read
  read_buffer n s s' out e =
      let (bs, inner', run, _, _, _) = r.read_some n s.inner in
      let one : ◌≡◌ {A = List ℕ × XorReader F}
          (unmask s.mask s.pos bs, record s { inner = inner'; pos = advance s.mask s.pos bs })
          (out, s') =
        cc (rw (read, run) at e) in
      sym (ap (λ (q : List ℕ × XorReader F). q.1.buffer) one)

  -- A read does not look at the buffer, though what was buffered comes first: into a buffer of its own
  -- that is not empty it gives bytes from behind the buffered ones, at least one unless there are none,
  -- and it leaves the buffered bytes, which are still to come.
  pub read_skips_buffer :
      (n : ℕ) (s : XorReader F) (b : ℕ) (bs : List ℕ)
      → 0 < n
      → s.buffer ≡ b ∷ bs
      → (out : List ℕ) × (s' : XorReader F) × (read r n s ≡ ok (out, s'))
        × (s'.buffer ≡ b ∷ bs)
        × (buffered_remaining s ≡ (b ∷ bs) ++ (out ++ plain_remaining r s'))
        × (buffered_remaining s' ≡ (b ∷ bs) ++ plain_remaining r s')
        × (length out ≤ n)
        × ((plain_remaining r s ≡ []) ⊎ (0 < length out))
  read_skips_buffer n s b bs pos held =
      let (out, s', run, split, short, some_out) = read_plain r n s pos in
      let kept = read_buffer n s s' out run ∙ held in
      (
        out,
        s',
        run,
        kept,
        ap (◌++◌ s.buffer) split ∙ ap (λ l. l ++ (out ++ plain_remaining r s')) held,
        ap (λ l. l ++ plain_remaining r s') kept,
        short,
        some_out,
      )
