-- ===== src/Client/AdminTests.antt =====
-- The class Admin in front of the broker of Broker/HandlerTests, over a JSON that is one byte for a
-- Boolean value and a count before a name for a topic.
use pyka.Common.{
  ◌≡◌, refl, zero, suc, [], ◌∷◌, ◌⊎◌, inl, inr, Bool, true, false, Option, some, Result, ok, err,
  key_error, value_error, if◌then◌else◌,
}
use pyka.Common.Int.{pos, pos_part}
use pyka.Python.Struct.{Bytes}
use pyka.Python.Text.{Str}
use pyka.Broker.HandlerTests.{broker}
use pyka.Broker.Admin.{TopicInfo, readyz}
use pyka.Broker.Admin
use pyka.Client.Connection.{returned}
use pyka.Client.Admin.{
  Admin, make_admin, Web, Opened, http_error, HttpMethod, get, post, create_topic, ready,
}
use pyka.Client.Admin.Served.{World, opened_by, ready_response, Serves, create_topic_again}

abbrev Value : Type 0
Value = TopicInfo ⊎ Bool

abbrev page : TopicInfo → Bytes
page info = 0 ∷ info.partitions ∷ info.name

abbrev ready_page : Bool → Bytes
ready_page b = (if b then 1 else 0) ∷ []

abbrev loads : Bytes → Result Value
loads (zero ∷ []) = ok (inr false)
loads (suc k ∷ []) = ok (inr true)
loads (k ∷ n ∷ name) = ok (inl (record { name = name; partitions = n }))
loads [] = err value_error

abbrev item : Value → Str → Result Value
item (inl info) key = err key_error
item (inr b) key = ok (inr b)

abbrev truth : Value → Bool
truth (inl info) = true
truth (inr b) = b

abbrev respond : HttpMethod → Option Bytes → World → Opened × World
respond get content (s, now) = (opened_by ready_page (ready_response (readyz s)), (s, suc now))
respond post (some (n ∷ name)) (s, now) =
    let (response, s') = Admin.create_topic s name (some n) now in
    (opened_by page response, (s', suc now))
respond post content w = (http_error 422, w)

abbrev web : Web World Value
web = record {
  urlopen = λ timeout request. respond request.method request.content;
  dump_topic = λ name partitions. pos_part partitions ∷ name;
  loads = loads;
  item = item;
  truth = truth;
}

-- "h/b"
abbrev admin : Admin
admin = record { url = 0x68 ∷ 0x2f ∷ 0x62 ∷ []; timeout = 10000 }

slashes_gone : make_admin (0x68 ∷ 0x2f ∷ 0x62 ∷ 0x2f ∷ 0x2f ∷ []) 10000 ≡ admin
unfolding make_admin
slashes_gone = refl

loads_flag : (b : Bool) → loads (ready_page b) ≡ ok (inr b)
loads_flag true = refl
loads_flag false = refl

abbrev web-Serves : Serves web admin
web-Serves = record {
  tick = suc;
  page = page;
  value = inl;
  ready_page = ready_page;
  ready_value = inr;
  flag = inr;
  loads = λ info. refl;
  loads_ready = loads_flag;
  item = λ b. refl;
  truth = λ b. refl;
  posts = λ s now name partitions. refl;
  gets = λ s now. refl;
}

-- "new"
abbrev name : Str
name = 0x6e ∷ 0x65 ∷ 0x77 ∷ []

new_created :
    (create_topic web admin name (pos 3) (broker, 0)).0
    ≡ returned (inl (record { name = name; partitions = 3 }))
unfolding create_topic Admin.create_topic pyka.Storage.Log.open_log
    pyka.Storage.Segment.open_segment pyka.Storage.Record.read_one pyka.Python.File.read
    pyka.Python.File.open_at pyka.Cluster.Ring.broker_for
new_created = refl

create_topic_again_example :
    let later = (create_topic web admin name (pos 3) (broker, 0)).1 in
    create_topic web admin name (pos 8) later
    ≡ (returned (inl (record { name = name; partitions = 3 })), (later.0, suc later.1))
create_topic_again_example =
    create_topic_again web admin web-Serves broker 0 name (pos 3) (pos 8)
      (inl (record { name = name; partitions = 3 })) new_created refl

ready_now : ready web admin (broker, 5) ≡ (returned true, (broker, 6))
unfolding ready readyz
ready_now = refl
