-- ===== src/Broker.antt =====
-- What the programs use of Kafka (aiokafka).

-- What becomes of `producer.send_and_wait`.
pub data Ack : Type 0 where
  acked : Ack
  -- it raises, and the message is in the topic all the same
  ack_lost : Ack
  -- it raises, and the message is not in the topic
  unsent : Ack
