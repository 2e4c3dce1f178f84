-- ===== src/Tests/Boards/Line.antt =====
-- The scripted bus, with the queue of its writes and a log of its transmissions, each of which is
-- acknowledged.
use picomesh.Base.{ℕ, zero, suc, ◌-◌, ◌≡◌, refl, List, [], ◌∷◌, ◌++◌, ap, arith}
use picomesh.Base.{length, take, take_all, AllBytes}
use picomesh.Arduino.TwoWire.{TwoWire, IsLawful, Delivers}
use picomesh.Tests.Boards.Wire.{Position, bus, bus-IsLawful}

pub record Line : Type 0 where
  pub position : Position
  pub target : ℕ
  pub queued : List ℕ
  pub delivered : List (ℕ × List ℕ)

abbrev pub new_line : Position → Line
new_line position = record { position = position; target = 0; queued = []; delivered = [] }

abbrev room : Line → List ℕ → List ℕ
room l bytes = take (32 - length l.queued) bytes

-- A request is answered from the script.
abbrev pub line : (ℕ → List ℕ) → TwoWire
line script =
    let b = bus script in
    record {
      State = Line;
      begin = λ l address. l;
      on_receive = λ l. l;
      on_request = λ l. l;
      begin_transmission = λ l address. record l { target = address; queued = [] };
      write = λ l bytes. (record l { queued = l.queued ++ room l bytes }, length (room l bytes));
      end_transmission = λ l. (record l { delivered = (l.target, l.queued) ∷ l.delivered }, 0);
      request_from = λ l address quantity.
          let out = b.request_from l.position address quantity in
          (record l { position = out.0 }, out.1);
      available = λ l. b.available l.position;
      read = λ l. let out = b.read l.position in (record l { position = out.0 }, out.1);
    }

abbrev pub line-IsLawful :
    (script : ℕ → List ℕ) → ((a : ℕ) → AllBytes (script a)) → IsLawful (line script)
line-IsLawful script bytes =
    let laws = bus-IsLawful script bytes in
    record {
      unread = λ l. laws.unread l.position;
      unread_bytes = λ l. laws.unread_bytes l.position;
      available_count = λ l. laws.available_count l.position;
      read_first = λ l. laws.read_first l.position;
      request_count = λ l. laws.request_count l.position;
      request_bound = λ l. laws.request_bound l.position;
    }

pub take-length-take : (n : ℕ) (xs : List ℕ) → take n xs ≡ take (length (take n xs)) xs
take-length-take zero xs = refl
take-length-take (suc n) [] = refl
take-length-take (suc n) (x ∷ xs) = ap (λ ys. x ∷ ys) (take-length-take n xs)

abbrev pub line-Delivers : (script : ℕ → List ℕ) → Delivers (line script)
line-Delivers script = record {
  target = λ l. l.target;
  queued = λ l. l.queued;
  delivered = λ l. l.delivered;
  begin_lem = λ l address. (refl, refl, refl);
  write_lem = λ l bytes.
      (refl, ap (λ xs. l.queued ++ xs) (take-length-take (32 - length l.queued) bytes), refl);
  write_room =
      λ l bytes fits. ap length (take_all (32 - length l.queued) bytes (omega (arith, fits)));
  end_lem = λ l. refl;
}
