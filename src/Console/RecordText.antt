-- ===== src/Console/RecordText.antt =====
-- The text of NDEF records on the console, and what the parser makes of it.
use e2f77dee9c9d8e2bfbcafc.Base.{
  ℕ, zero, suc, ◌-◌, ◌<◌, ◌≤◌, ◌≡◌, refl, ap, ◌∙◌, arith, Bool, true, false, not, ◌||◌, Option,
  none, some, List, [], ◌∷◌, ◌++◌, map, length, All, ltb, leb, ◌==◌, if◌then◌else◌, bit_and,
  Bool-cases, inl, inr,
}
use e2f77dee9c9d8e2bfbcafc.Console.{
  Args, ◌>>=◌, ◌>>◌, guard, split, strsep, blank_or_comma, strtoul, lex_token, parse_token_ul,
  parse_token_s, is_empty,
}
use e2f77dee9c9d8e2bfbcafc.Console.Parse.{NdefParam, parse_ndef_rec, parse_ndef_msg}

-- A record with the texts of its two numbers.
pub record Entry : Type 0 where
  pub flags_text : List ℕ
  pub tnf_text : List ℕ
  pub param : NdefParam

abbrev pub Free : (ℕ → Bool) → List ℕ → Type 0
Free delim = All (λ c. delim c ≡ false)

-- The entry can be written: its numbers are in their ranges, only the id may be empty, and no text
-- holds the character that ends it.
pub record IsEntry (e : Entry) : Type 0 where
  pub flags_read : strtoul e.flags_text ≡ some e.param.flags
  pub flags_bits : e.param.flags - bit_and e.param.flags 0xf8 ≡ 0
  pub tnf_read : strtoul e.tnf_text ≡ some e.param.tnf
  pub tnf_small : e.param.tnf < 8
  pub type_full : is_empty e.param.type ≡ false
  pub payload_full : is_empty e.param.payload ≡ false
  pub flags_free : Free blank_or_comma e.flags_text
  pub tnf_free : Free blank_or_comma e.tnf_text
  pub type_free : Free blank_or_comma e.param.type
  pub id_free : Free blank_or_comma e.param.id
  pub payload_free : Free (λ c. c == 0x5d) e.param.payload

-- `[flags,tnf,type,id,payload]`, with `rest` behind it.
abbrev pub text : Entry → List ℕ → List ℕ
text e rest =
    0x5b
    ∷ (e.flags_text
        ++ (0x2c
            ∷ (e.tnf_text
                ++ (0x2c
                    ∷ (e.param.type
                        ++ (0x2c ∷ (e.param.id ++ (0x2c ∷ (e.param.payload ++ (0x5d ∷ rest))))))))))

abbrev pub texts : List Entry → List ℕ
texts [] = []
texts (e ∷ es) = text e (texts es)

split_token :
    (delim : ℕ → Bool) (token rest : List ℕ) (d : ℕ)
    → Free delim token
    → delim d ≡ true
    → split delim (token ++ (d ∷ rest)) ≡ (token, some rest)
unfolding split
split_token delim [] rest d h k = rw k refl
split_token delim (c ∷ token) rest d h k = rw (h.0, split_token delim token rest d h.1 k) refl

lex_token_lem :
    (delim : ℕ → Bool) (token rest : List ℕ) (d : ℕ)
    → Free delim token
    → delim d ≡ true
    → lex_token delim (some (token ++ (d ∷ rest))) ≡ some (token, some rest)
unfolding lex_token strsep
lex_token_lem delim token rest d h k = rw (split_token delim token rest d h k) refl

-- One step of a parser.
>>=-some {ℓ κ} :
    {A : Type ℓ} {B : Type κ} (m : Option A) (f : A → Option B) (a : A) (r : Option B)
    → m ≡ some a
    → f a ≡ r
    → (m >>= f) ≡ r
>>=-some m f a r e k = ap (λ x. x >>= f) e ∙ k

guard-true {ℓ} : {B : Type ℓ} (b : Bool) (m r : Option B) → b ≡ true → m ≡ r → (guard b >> m) ≡ r
guard-true true m r e k = k
guard-true false m r e k = absurd (cc (e))

number_lem :
    (token rest : List ℕ) (v : ℕ)
    → Free blank_or_comma token
    → strtoul token ≡ some v
    → parse_token_ul blank_or_comma (some (token ++ (0x2c ∷ rest))) ≡ some (v, some rest)
unfolding parse_token_ul
number_lem token rest v h e =
    >>=-some (lex_token blank_or_comma (some (token ++ (0x2c ∷ rest))))
      (λ x. strtoul x.0 >>= λ val. some (val, x.1)) (token, some rest) (some (v, some rest))
      (lex_token_lem blank_or_comma token rest 0x2c h refl)
      (ap (λ x. x >>= λ val. some (val, some rest)) e)

text_lem :
    (delim : ℕ → Bool) (token rest : List ℕ) (d : ℕ) (allow : Bool)
    → Free delim token
    → delim d ≡ true
    → (allow || not (is_empty token)) ≡ true
    → parse_token_s delim (some (token ++ (d ∷ rest))) allow ≡ some (token, some rest)
unfolding parse_token_s
text_lem delim token rest d allow h k e =
    >>=-some (lex_token delim (some (token ++ (d ∷ rest))))
      (λ x. guard (allow || not (is_empty x.0)) >> some (x.0, x.1)) (token, some rest)
      (some (token, some rest)) (lex_token_lem delim token rest d h k)
      (guard-true (allow || not (is_empty token)) _ _ e refl)

-- The steps of a record behind its opening bracket.
rec_steps :
    (line : List ℕ) (param : NdefParam) (r₁ r₂ r₃ r₄ r₅ : Args)
    → parse_token_ul blank_or_comma (some line) ≡ some (param.flags, r₁)
    → (param.flags - bit_and param.flags 0xf8 == 0) ≡ true
    → parse_token_ul blank_or_comma r₁ ≡ some (param.tnf, r₂)
    → ltb param.tnf 8 ≡ true
    → parse_token_s blank_or_comma r₂ false ≡ some (param.type, r₃)
    → parse_token_s blank_or_comma r₃ true ≡ some (param.id, r₄)
    → parse_token_s (λ c. c == 0x5d) r₄ false ≡ some (param.payload, r₅)
    → parse_ndef_rec (some (0x5b ∷ line)) ≡ some (param, r₅)
unfolding parse_ndef_rec strsep
rec_steps line param r₁ r₂ r₃ r₄ r₅ e₁ g₁ e₂ g₂ e₃ e₄ e₅ = simp (e₁, g₁, e₂, g₂, e₃, e₄, e₅)

-- A written entry is read back, up to where it ends.
parse_ndef_rec-text :
    (e : Entry) (rest : List ℕ)
    → IsEntry e
    → parse_ndef_rec (some (text e rest)) ≡ some (e.param, some rest)
parse_ndef_rec-text e rest h =
    let r₄ : List ℕ = e.param.payload ++ (0x5d ∷ rest) in
    let r₃ : List ℕ = e.param.id ++ (0x2c ∷ r₄) in
    let r₂ : List ℕ = e.param.type ++ (0x2c ∷ r₃) in
    let r₁ : List ℕ = e.tnf_text ++ (0x2c ∷ r₂) in
    let bits : (e.param.flags - bit_and e.param.flags 0xf8 == 0) ≡ true = rw (h.flags_bits) refl in
    let small : ltb e.param.tnf 8 ≡ true = let k = h.tnf_small in ground arith in
    rec_steps (e.flags_text ++ (0x2c ∷ r₁)) e.param (some r₁) (some r₂) (some r₃) (some r₄)
      (some rest) (number_lem e.flags_text r₁ e.param.flags h.flags_free h.flags_read) bits
      (number_lem e.tnf_text r₂ e.param.tnf h.tnf_free h.tnf_read) small
      (text_lem blank_or_comma e.param.type r₃ 0x2c false h.type_free refl (rw (h.type_full) refl))
      (text_lem blank_or_comma e.param.id r₄ 0x2c true h.id_free refl refl)
      (text_lem (λ c. c == 0x5d) e.param.payload rest 0x5d false h.payload_free refl
        (rw (h.payload_full) refl))

parse_ndef_msg-texts :
    (es : List Entry) (nrecs : ℕ)
    → All IsEntry es
    → length es ≤ nrecs
    → parse_ndef_msg (some (texts es)) nrecs ≡ some (map (λ e. e.param) es)
unfolding parse_ndef_msg
parse_ndef_msg-texts [] zero h k = refl
parse_ndef_msg-texts [] (suc nrecs) h k = refl
parse_ndef_msg-texts (e ∷ es) zero h k = absurd (omega arith)
parse_ndef_msg-texts (e ∷ es) (suc nrecs) h k =
    >>=-some (parse_ndef_rec (some (text e (texts es))))
      (λ x. parse_ndef_msg x.1 nrecs >>= λ params. some (x.0 ∷ params)) (e.param, some (texts es))
      (some (map (λ x. x.param) (e ∷ es))) (parse_ndef_rec-text e (texts es) h.0)
      (ap (λ m. m >>= λ params. some (e.param ∷ params))
        (parse_ndef_msg-texts es nrecs h.1 (omega arith)))

parse_ndef_msg-too_many :
    (es : List Entry) (nrecs : ℕ)
    → All IsEntry es
    → nrecs < length es
    → parse_ndef_msg (some (texts es)) nrecs ≡ none
unfolding parse_ndef_msg
parse_ndef_msg-too_many [] nrecs h k = absurd (omega arith)
parse_ndef_msg-too_many (e ∷ es) zero h k = refl
parse_ndef_msg-too_many (e ∷ es) (suc nrecs) h k =
    >>=-some (parse_ndef_rec (some (text e (texts es))))
      (λ x. parse_ndef_msg x.1 nrecs >>= λ params. some (x.0 ∷ params)) (e.param, some (texts es))
      none (parse_ndef_rec-text e (texts es) h.0)
      (ap (λ m. m >>= λ params. some (e.param ∷ params))
        (parse_ndef_msg-too_many es nrecs h.1 (omega arith)))

-- The text of a list of records is read as exactly these records, if there are at most `nrecs` of
-- them, and is refused if there are more. A text has its two numbers in a form that `strtoul` reads,
-- its flags and TNF in their ranges, and no delimiter inside a field; its id may be empty.
pub parse_ndef_msg-text :
    (es : List Entry) (nrecs : ℕ)
    → All IsEntry es
    → parse_ndef_msg (some (texts es)) nrecs
      ≡ (if leb (length es) nrecs then some (map (λ e. e.param) es) else none)
parse_ndef_msg-text es nrecs h = elim (Bool-cases (leb (length es) nrecs)) [
  | inl k ↦ rw k (parse_ndef_msg-texts es nrecs h (ground arith))
  | inr k ↦ rw k (parse_ndef_msg-too_many es nrecs h (ground arith))
]
