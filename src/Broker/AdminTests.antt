-- ===== src/Broker/AdminTests.antt =====
-- The control plane on the broker of HandlerTests, which stores one of the two partitions.
use pyka.Common.{◌≡◌, refl, arith, true, some}
use pyka.Broker.HandlerTests.{broker, orders, topic}
use pyka.Broker.Admin.{sync_topic, status, readyz, create_topic}
use pyka.Broker.Admin.Syncing.{sync_topic_foreign}

sync_topic_foreign_example : sync_topic broker orders 0 ≡ (status 500, broker)
unfolding pyka.Topic.Name.validate_name pyka.Python.Dict.lookup
sync_topic_foreign_example = sync_topic_foreign broker orders topic 1 0 refl refl (omega arith) refl

ready_now : readyz broker ≡ (200, true)
unfolding readyz
ready_now = refl

nothing_to_create : (create_topic broker orders (some 0) 0).0 ≡ status 422
unfolding create_topic
nothing_to_create = refl
