-- ===== src/Script/Total.antt =====
-- The multisig addresses, and the evaluation of any script.
use rusty_bitcoin_explorer.Common.{
  ℕ, suc, ◌+◌, ◌-◌, ◌≤◌, ◌≡◌, ◌↔◌, inl, inr, refl, sym, ap, ◌∙◌, Bool, true, false, Option, none,
  some, List, [], ◌∷◌, ◌++◌, append_assoc, append-nil, map, length, length-append, length-map,
  get_elem?, take, drop, take-append_length, arith, Bool-cases, Option-cases, if◌then◌else◌,
}
use rusty_bitcoin_explorer.Common.Words.{pos}
use rusty_bitcoin_explorer.Error.{Outcome, ok}
use rusty_bitcoin_explorer.External.{
  External, Script, Address, Network, bitcoin, Instruction, push_bytes, op,
}
use rusty_bitcoin_explorer.Script.{
  ScriptInfo, ScriptType, not_recognised, decode_from_op_n, collect_chunks, parsed_ops, is_multisig,
  read_keys, key_count, multisig_addresses, p2pk_to_address, evaluate_script, first_key, new,
  from_vec, pay2_public_key, pay2_multi_sig,
}
use rusty_bitcoin_explorer.Script.Multisig.{IsMOfN, is_multisig_chunks_iff, get_second_last}

parsed_ops-collect :
    (is : List (Option Instruction)) (chunks : List Instruction)
    → collect_chunks is ≡ some chunks
    → parsed_ops is ≡ chunks
unfolding collect_chunks parsed_ops
parsed_ops-collect [] chunks h = cc
parsed_ops-collect (none ∷ is) chunks h = cc
parsed_ops-collect (some i ∷ is) chunks h = elim (Option-cases (collect_chunks is)) [
  | inl bad ↦ cc (rw (bad, collect_chunks) at h)
  | inr (rest, good) ↦
      let e = rw (good, collect_chunks) at h in cc (parsed_ops-collect is rest good, e)
]

-- The place before the last of an m-of-n script, and its keys.
second_last-IsMOfN :
    (chunks : List Instruction) (keys : List (List ℕ)) (m n : ℕ)
    → IsMOfN chunks keys m n
    → (get_elem? chunks (length chunks - 2) ≡ some (op (0x50 + n)))
      × (take n (drop 1 chunks) ≡ map push_bytes keys)
second_last-IsMOfN chunks keys m n w =
    let mid = map push_bytes keys in
    let tail = op (0x50 + n) ∷ op w.check ∷ [] in
    let count : length mid ≡ n = length-map keys push_bytes ∙ w.key_count in
    let at : length chunks - 2 ≡ suc (length mid) =
      omega (arith, ap length w.form, length-append {0} mid tail) in
    (
      ap (get_elem? chunks) at
          ∙ ap (λ l. get_elem? l (suc (length mid))) w.form
          ∙ get_second_last mid (op (0x50 + n)) (op w.check),
      ap (λ l. take n (drop 1 l)) w.form ∙ take-append_length n mid tail count,
    )

decode_from_op_n-add : (n : ℕ) → 1 ≤ n → n ≤ 16 → decode_from_op_n (0x50 + n) ≡ pos n
unfolding decode_from_op_n
decode_from_op_n-add n lo hi = ground arith

abbrev Returns : Outcome ScriptInfo → Type 0
Returns o = (info : ScriptInfo) × (o ≡ ok info)

if_Returns :
    (b : Bool) (m n : Outcome ScriptInfo)
    → (b ≡ true → Returns m)
    → (b ≡ false → Returns n)
    → Returns (if b then m else n)
if_Returns true m n hm hn = hm refl
if_Returns false m n hm hn = hn refl

returns : (info : ScriptInfo) {b c : Bool} → b ≡ c → Returns (ok info)
returns info h = (info, refl)

pattern-new : (a : Option Address) (p : ScriptType) → (new a p).pattern ≡ p
unfolding new
pattern-new none p = refl
pattern-new (some a) p = refl

info_of_ok : (a b : ScriptInfo) → ◌≡◌ {A = Outcome ScriptInfo} (ok a) (ok b) → a ≡ b
info_of_ok a b e = cc

module _ (x : External) where
  abbrev key_address : List ℕ → Address
  key_address pk = x.p2pkh (x.pubkey_hash pk) bitcoin

  abbrev pub join_key : Option (List ℕ) → Option (List Address) → Option (List Address)
  join_key none rest = none
  join_key (some pk) none = none
  join_key (some pk) (some rest) = some (key_address pk ∷ rest)

  -- The addresses of the public keys, if all parse.
  abbrev pub parse_keys : List (List ℕ) → Option (List Address)
  parse_keys [] = some []
  parse_keys (k ∷ ks) = join_key (x.public_key_from_slice k) (parse_keys ks)

  abbrev pub or_none : List Address → Option (List Address) → List Address
  or_none found none = []
  or_none found (some rest) = found ++ rest

  or_none-join_key :
      (found : List Address) (pk : List ℕ) (rest : Option (List Address))
      → or_none (found ++ key_address pk ∷ []) rest ≡ or_none found (join_key (some pk) rest)
  or_none-join_key found pk none = refl
  or_none-join_key found pk (some rest) = append_assoc found (key_address pk ∷ []) rest

  read_keys-eq-parse_keys :
      (keys : List (List ℕ)) (found : List Address)
      → read_keys x found (map push_bytes keys) ≡ ok (or_none found (parse_keys keys))
  unfolding read_keys
  read_keys-eq-parse_keys [] found = ap ok (sym (append-nil found))
  read_keys-eq-parse_keys (k ∷ keys) found = elim (Option-cases (x.public_key_from_slice k)) [
    | inl bad ↦ rw (bad, read_keys)
    | inr (pk, good) ↦
        rw (good, read_keys)
          (read_keys-eq-parse_keys keys (found ++ key_address pk ∷ [])
            ∙ ap ok (or_none-join_key found pk (parse_keys keys)))
  ]

  -- The script is an m-of-n script with these keys.
  pub record IsMultisig (script : Script) (keys : List (List ℕ)) (m n : ℕ) : Type 0 where
    pub chunks : List Instruction
    pub parses : collect_chunks (x.instructions script) ≡ some chunks
    pub form : IsMOfN chunks keys m n

  is_multisig_of :
      (script : Script) (keys : List (List ℕ)) (m n : ℕ)
      → IsMultisig script keys m n
      → is_multisig x script ≡ true
  unfolding is_multisig
  is_multisig_of script keys m n w =
      rw (w.parses, is_multisig) ((is_multisig_chunks_iff w.chunks).1 (keys, m, n, w.form))

  of_is_multisig :
      (script : Script)
      → is_multisig x script ≡ true
      → (keys : List (List ℕ)) × (m n : ℕ) × IsMultisig script keys m n
  unfolding is_multisig
  of_is_multisig script h = elim (Option-cases (collect_chunks (x.instructions script))) [
    | inl bad ↦ cc (rw (bad, is_multisig) at h)
    | inr (chunks, good) ↦
        let (keys, m, n, form) = (is_multisig_chunks_iff chunks).0 (rw (good, is_multisig) at h) in
        (keys, m, n, record { chunks = chunks; parses = good; form = form })
  ]

  -- A script is taken for a multisig script exactly when all its instructions parse and are an
  -- m-of-n script.
  pub is_multisig_iff :
      (script : Script)
      → (is_multisig x script ≡ true)
        ↔ ((keys : List (List ℕ)) × (m n : ℕ) × IsMultisig script keys m n)
  is_multisig_iff script =
      (of_is_multisig script, λ (keys, m, n, w). is_multisig_of script keys m n w)

  -- For an m-of-n script the addresses are those of all its keys in order, or none where a key does
  -- not parse. There is no panic.
  pub multisig_addresses_lem :
      (script : Script) (keys : List (List ℕ)) (m n : ℕ)
      → IsMultisig script keys m n
      → multisig_addresses x script ≡ ok (or_none [] (parse_keys keys))
  unfolding multisig_addresses
  multisig_addresses_lem script keys m n w =
      let (second, middle) = second_last-IsMOfN w.chunks keys m n w.form in
      rw
        (
          is_multisig_of script keys m n w,
          parsed_ops-collect (x.instructions script) w.chunks w.parses,
          second,
          decode_from_op_n-add n w.form.n_range.0 w.form.n_range.1,
          middle,
          key_count,
        )
        (read_keys-eq-parse_keys keys [])

  -- What rust-bitcoin says of a pay-to-public-key script: it begins with a push of the key.
  abbrev pub P2pkPushes : Type 0
  P2pkPushes =
      (script : Script)
      → x.is_p2pk script ≡ true
      → (pk : List ℕ) × (is : List (Option Instruction)) × (x.instructions script
          ≡ some (push_bytes pk) ∷ is)

  p2pk_to_address-ok :
      (script : Script)
      → P2pkPushes
      → x.is_p2pk script ≡ true
      → (a : Option Address) × (p2pk_to_address x script ≡ ok a)
  unfolding p2pk_to_address
  p2pk_to_address-ok script pushes h =
      let (pk, is, e) = pushes script h in
      elim (Option-cases (x.pubkey_hash_from_slice (x.hash160 pk))) [
        | inl bad ↦ (none, rw (h, e, bad, first_key))
        | inr (pkh, good) ↦ (some (x.p2pkh pkh bitcoin), rw (h, e, good, first_key))
      ]

  -- No script makes the evaluation panic.
  pub evaluate_script-ok :
      (script : Script) (net : Network)
      → P2pkPushes
      → (info : ScriptInfo) × (evaluate_script x script net ≡ ok info)
  unfolding evaluate_script
  evaluate_script-ok script net pushes =
      if_Returns (x.is_p2pk script) _ _
        (λ h. let (a, e) = p2pk_to_address-ok script pushes h in (new a pay2_public_key, rw e))
        (λ _. if_Returns (x.is_p2pkh script) _ _ (returns _) (λ _.
          if_Returns (x.is_p2sh script) _ _ (returns _) (λ _.
            if_Returns (x.is_p2wpkh script) _ _ (returns _) (λ _.
              if_Returns (x.is_p2wsh script) _ _ (returns _) (λ _.
                if_Returns (x.is_witness_program script) _ _ (returns _) (λ _.
                  if_Returns (x.is_op_return script) _ _ (returns _) (λ _.
                    if_Returns (is_multisig x script) _ _
                      (λ h.
                        let (keys, m, n, w) = of_is_multisig script h in
                        (
                          from_vec (or_none [] (parse_keys keys)) pay2_multi_sig,
                          rw (multisig_addresses_lem script keys m n w),
                        ))
                      (returns _))))))))

  -- No earlier test of `evaluate_script` takes the script.
  pub record IsOther (script : Script) : Type 0 where
    pub p2pk : x.is_p2pk script ≡ false
    pub p2pkh : x.is_p2pkh script ≡ false
    pub p2sh : x.is_p2sh script ≡ false
    pub p2wpkh : x.is_p2wpkh script ≡ false
    pub p2wsh : x.is_p2wsh script ≡ false
    pub witness : x.is_witness_program script ≡ false
    pub returned : x.is_op_return script ≡ false

  -- A script that no earlier test takes has the pattern Pay2MultiSig exactly when it is m-of-n.
  pub evaluate_script-IsMultisig_iff :
      (script : Script) (net : Network) (info : ScriptInfo)
      → IsOther script
      → evaluate_script x script net ≡ ok info
      → (info.pattern ≡ pay2_multi_sig) ↔ (
          (keys : List (List ℕ)) × (m n : ℕ) × IsMultisig script keys m n
          × (info.addresses ≡ or_none [] (parse_keys keys)))
  unfolding evaluate_script from_vec
  evaluate_script-IsMultisig_iff script net info o e =
      let e' =
        rw (o.p2pk, o.p2pkh, o.p2sh, o.p2wpkh, o.p2wsh, o.witness, o.returned, evaluate_script) at
          e in
      (
        λ multi. elim (Bool-cases (is_multisig x script)) [
          | inl h ↦
              let (keys, m, n, w) = of_is_multisig script h in
              let same = rw (h, multisig_addresses_lem script keys m n w) at e' in
              (keys, m, n, w, ap (λ (i : ScriptInfo). i.addresses) (sym (info_of_ok _ _ same)))
          | inr h ↦
              let plain = new (x.address_from_script script net) not_recognised in
              let same : plain ≡ info = info_of_ok _ _ (rw h at e') in
              cc (
                multi,
                ap (λ (i : ScriptInfo). i.pattern) same,
                pattern-new (x.address_from_script script net) not_recognised,
              )
        ],
        λ (keys, m, n, w, _).
            let same =
              rw (is_multisig_of script keys m n w, multisig_addresses_lem script keys m n w) at
                e' in
            ap (λ (i : ScriptInfo). i.pattern) (sym (info_of_ok _ _ same)),
      )
