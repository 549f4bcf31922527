-- ===== src/BlkFile/Read.antt =====
-- Blocks and transactions are read back from the place where the node wrote them.
use rusty_bitcoin_explorer.Common.{
  ℕ, ◌+◌, ◌-◌, ◌≤◌, ◌≡◌, refl, sym, ap, ◌∙◌, Bool, some, List, [], ◌++◌, append-nil, length, drop,
  All, arith,
}
use rusty_bitcoin_explorer.Common.Words.{ℤ, IsByte}
use rusty_bitcoin_explorer.Common.Map
use rusty_bitcoin_explorer.Common.Map.{int_key}
use rusty_bitcoin_explorer.Error.{ok}
use rusty_bitcoin_explorer.External.{External, Block, Transaction, decoded}
use rusty_bitcoin_explorer.Reader
use rusty_bitcoin_explorer.Reader.{ReadExact, read_vec_u8, consensus_decode}
use rusty_bitcoin_explorer.Reader.Bytes.{bytes}
use rusty_bitcoin_explorer.Reader.Exact.{
  read_exact-append, read_u32-append, consensus_decode-append,
}
use rusty_bitcoin_explorer.Xor.{Seek, unmask}
use rusty_bitcoin_explorer.Xor.Bytes.{IsMaskOption}
use rusty_bitcoin_explorer.Xor.Laws.{xor_read, IsOpened, seek-new}
use rusty_bitcoin_explorer.BlkFile.{
  FilePath, FileSystem, BlkFile, header_size, sub_u64, xor_stream, read_raw_block, read_block,
  read_transaction,
}

-- The file of number `n_file` opens, and its plain bytes are `plain`: on disk they stand behind
-- the mask.
pub record Holds {F : Type 0} (fs : FileSystem F) (r : Reader.Read F) (k : Seek F) (b : BlkFile)
    (n_file : ℤ) (plain : List ℕ) : Type 0 where
  pub path : FilePath
  pub file : F
  pub found : Map.get b.files n_file ≡ some path
  pub opens : fs.open_file path ≡ ok file
  pub opened : IsOpened r k (unmask b.xor_mask 0 plain) file
  pub mask_bytes : IsMaskOption b.xor_mask
  pub plain_bytes : All IsByte plain

module _ {F : Type 0} (x : External) (checks : Bool) (fs : FileSystem F) (r : Reader.Read F)
    (k : Seek F) (exact : ReadExact (xor_read r)) where
  -- Where the plain file has a block's size before `offset` and the block's bytes from there on,
  -- `read_raw_block` returns those bytes, whether the file is masked or not.
  pub read_raw_block_lem :
      (b : BlkFile) (n_file : ℤ) (plain : List ℕ) (offset : ℕ) (size block rest : List ℕ)
      → Holds fs r k b n_file plain
      → 4 ≤ offset
      → length size ≡ 4
      → x.le_u32 size ≡ length block
      → drop (offset - 4) plain ≡ size ++ (block ++ rest)
      → read_raw_block x checks fs r k exact b n_file offset ≡ ok block
  unfolding read_raw_block read_vec_u8
  read_raw_block_lem b n_file plain offset size block rest h four hsize hlen at =
      let (s₀, sought, left, _) =
        seek-new r k b.xor_mask plain h.file (offset - 4) h.mask_bytes h.plain_bytes h.opened in
      let xs = xor_stream x checks fs r k exact in
      let (s₁, run₁, left₁) = read_u32-append x xs size (block ++ rest) s₀ hsize (left ∙ at) in
      let (s₂, run₂, left₂) = read_exact-append xs (length block) block rest s₁ refl left₁ in
      let sub : sub_u64 checks offset 4 ≡ ok (offset - 4) = ground arith in
      rw (h.found, h.opens, sub, sought, run₁, hlen, run₂)

  -- A block that was written at `offset` behind its size is read back.
  pub read_block_lem :
      (b : BlkFile) (n_file : ℤ) (plain : List ℕ) (offset : ℕ) (size raw rest : List ℕ)
      (blk : Block)
      → Holds fs r k b n_file plain
      → 4 ≤ offset
      → length size ≡ 4
      → x.le_u32 size ≡ length raw
      → drop (offset - 4) plain ≡ size ++ (raw ++ rest)
      → x.decode_block raw ≡ decoded blk (length raw)
      → read_block x checks fs r k exact b n_file offset ≡ ok blk
  unfolding read_block Reader.read_block
  read_block_lem b n_file plain offset size raw rest blk h four hsize hlen at hd =
      let got = read_raw_block_lem b n_file plain offset size raw rest h four hsize hlen at in
      let (s, run, left) =
        consensus_decode-append x bytes x.decode_block blk raw [] raw hd (sym (append-nil raw)) in
      rw (got, run)

  -- A transaction that lies `n_tx_offset` bytes behind the header of the block at `n_pos` is read
  -- back.
  pub read_transaction_lem :
      (b : BlkFile) (n_file : ℤ) (plain : List ℕ) (n_pos n_tx_offset : ℕ) (raw rest : List ℕ)
      (tx : Transaction)
      → Holds fs r k b n_file plain
      → drop (n_pos + n_tx_offset + header_size) plain ≡ raw ++ rest
      → x.decode_transaction (raw ++ rest) ≡ decoded tx (length raw)
      → read_transaction x checks fs r k exact b n_file n_pos n_tx_offset ≡ ok tx
  unfolding read_transaction Reader.read_transaction
  read_transaction_lem b n_file plain n_pos n_tx_offset raw rest tx h at hd =
      let (s₀, sought, left, _) =
        seek-new r k b.xor_mask plain h.file (n_pos + n_tx_offset + header_size) h.mask_bytes
          h.plain_bytes h.opened in
      let xs = xor_stream x checks fs r k exact in
      let (s₁, run, left₁) =
        consensus_decode-append x xs x.decode_transaction tx raw rest s₀
          (ap x.decode_transaction (left ∙ at) ∙ hd) (left ∙ at) in
      rw (h.found, h.opens, sought, run)
