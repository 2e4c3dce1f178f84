-- ===== src/Tests/Boards/Wire.antt =====
-- A bus that answers each request for an address with the bytes of a script, from the first.
use picomesh.Base.{
  ℕ, zero, suc, ◌≤◌, ◌≡◌, refl, sym, ap, List, [], ◌∷◌, arith, Bool-cases, inl, inr,
}
use picomesh.Base.{leb, if◌then◌else◌, length, drop, AllBytes, AllBytes-drop}
use picomesh.Arduino.TwoWire.{TwoWire, IsLawful}

-- The address last asked, and how many bytes have been read since.
pub record Position : Type 0 where
  pub address : ℕ
  pub next : ℕ

unfoldable pub first_of : List ℕ → ℕ
first_of [] = 0
first_of (b ∷ bs) = b

abbrev pub unread : (ℕ → List ℕ) → Position → List ℕ
unread script p = drop p.next (script p.address)

unfoldable pub ask : (ℕ → List ℕ) → ℕ → ℕ → Position × ℕ
ask script address quantity =
    let all = length (script address) in
    if leb all quantity
    then (record { address = address; next = 0 }, all)
    else (record { address = address; next = all }, 0)

abbrev pub bus : (ℕ → List ℕ) → TwoWire
bus script = record {
  State = Position;
  begin = λ p address. p;
  on_receive = λ p. p;
  on_request = λ p. p;
  begin_transmission = λ p address. p;
  write = λ p bytes. (p, length bytes);
  end_transmission = λ p. (p, 0);
  request_from = λ p address quantity. ask script address quantity;
  available = λ p. length (unread script p);
  read = λ p. (record p { next = suc p.next }, first_of (unread script p));
}

pub drop-suc :
    (n : ℕ) (xs : List ℕ) (b : ℕ) (bs : List ℕ) → drop n xs ≡ b ∷ bs → drop (suc n) xs ≡ bs
drop-suc zero [] b bs e = absurd (ground (arith, e))
drop-suc zero (x ∷ xs) b bs e = ground (arith, e)
drop-suc (suc n) [] b bs e = absurd (ground (arith, e))
drop-suc (suc n) (x ∷ xs) b bs e = drop-suc n xs b bs e

drop-length : (xs : List ℕ) → drop (length xs) xs ≡ []
drop-length [] = refl
drop-length (x ∷ xs) = drop-length xs

pub ask_lem :
    (script : ℕ → List ℕ) (address quantity : ℕ)
    → ((ask script address quantity).1 ≡ length (unread script (ask script address quantity).0))
      × ((ask script address quantity).1 ≤ quantity)
unfolding ask
ask_lem script address quantity = elim (Bool-cases (leb (length (script address)) quantity)) [
  | inl fits ↦ rw fits (refl, ground (arith, fits))
  | inr long ↦ rw long (ap length (sym (drop-length (script address))), omega arith)
]

pub first_of_lem : (b : ℕ) (bs : List ℕ) {xs : List ℕ} → xs ≡ b ∷ bs → first_of xs ≡ b
unfolding first_of
first_of_lem b bs e = ap first_of e

abbrev pub bus-IsLawful :
    (script : ℕ → List ℕ) → ((a : ℕ) → AllBytes (script a)) → IsLawful (bus script)
bus-IsLawful script bytes = record {
  unread = unread script;
  unread_bytes = λ p. AllBytes-drop p.next (script p.address) (bytes p.address);
  available_count = λ p. refl;
  read_first = λ p b bs e. (first_of_lem b bs e, drop-suc p.next (script p.address) b bs e);
  request_count = λ p address quantity. (ask_lem script address quantity).0;
  request_bound = λ p address quantity. (ask_lem script address quantity).1;
}
