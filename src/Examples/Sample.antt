-- ===== src/Examples/Sample.antt =====
-- The tables of a sale: a payment of one ticket and two shirts.
use ticketing_platform.Payments.{Payment, PaymentStatus, Sales, mobile_money}
use ticketing_platform.Tickets.Generation.{Codes}
use ticketing_platform.Tickets.{Template, Ticket, TicketStatus, Ticketing, online, valid}
use ticketing_platform.Shop.{MerchOrder, OrderItem, OrderStatus, Shop, paid, pickup}
use ticketing_platform.Pricing.{Currency, FeePayer}
use ticketing_platform.Access.{Event, published}
use ticketing_platform.Prelude.Int.{pos}
use ticketing_platform.Prelude.{List, Option, [], none, some, true, ℕ, ◌+◌, ◌∷◌}

abbrev pub dollars : Currency
dollars = Currency.other 840

abbrev pub concert : Event
concert = record {
  id = 7;
  organizer_id = 1;
  status = published;
  start_date = 1000;
  end_date = 2000;
  total_capacity = 10;
  fee_payer = FeePayer.buyer;
  merch_delivery_fee = none;
}

abbrev pub tariff_with : ℕ → Template
tariff_with seats_left = record {
  id = 20;
  event_id = 7;
  price = 1500;
  currency = dollars;
  quantity = 3;
  available_count = seats_left;
  valid_days = [];
}

abbrev ticket_in : TicketStatus → Option ℕ → Ticket
ticket_in status cancelled_at = record {
  id = 101;
  serial_number = record { event_code = 3; template_code = 20; sequence = 1 };
  event_id = 7;
  template_id = 20;
  status = status;
  price = 1635;
  source = online;
  created_at = 50;
  checked_in_at = none;
  cancelled_at = cancelled_at;
}

abbrev pub payment_in : PaymentStatus → Payment
payment_in status = record {
  id = 5;
  reference = 55;
  order_number = some 900;
  event_id = 7;
  holder = 9;
  amount = 4635;
  currency = dollars;
  method = mobile_money;
  ticket_amount = 1500;
  fee_amount = pos 135;
  fee_payer = some FeePayer.buyer;
  net_amount = some 4500;
  status = status;
  items = record { template_id = 20; quantity = 1 } ∷ [];
  provider_ref = none;
  tickets_data = 101 ∷ [];
  created_at = 100;
}

abbrev two_shirts : List OrderItem
two_shirts = record { variant_id = 10; unit_price = 1500; quantity = 2 } ∷ []

abbrev order_in : OrderStatus → MerchOrder
order_in status = record {
  id = 1;
  event_id = 7;
  payment_id = some 5;
  fulfillment = pickup;
  total = 3000;
  status = status;
  created_at = 100;
  paid_at = none;
  fulfilled_at = none;
  items = two_shirts;
}

abbrev pub shop_with : ℕ → OrderStatus → Shop
shop_with n status = record {
  variants =
      record {
        id = 10;
        product = record { event_id = 7; price = 1500; currency = dollars; is_active = true };
        stock = pos n;
      }
      ∷ [];
  orders = order_in status ∷ [];
}

abbrev pub ticketing_with : ℕ → TicketStatus → Option ℕ → Ticketing
ticketing_with seats_left status cancelled_at = record {
  events = concert ∷ [];
  templates = tariff_with seats_left ∷ [];
  tickets = ticket_in status cancelled_at ∷ [];
  accounts = [];
}

abbrev pub sales_in : PaymentStatus → Sales
sales_in status = record {
  payments = payment_in status ∷ [];
  refunds = [];
  shop = shop_with 3 paid;
  ticketing = ticketing_with 2 valid none;
}

abbrev pub codes : ℕ → Codes
codes template_id = record {
  new_id = λ n. 100 + n;
  event_code = 3;
  template_code = λ i. i;
  can_sign = λ i. true;
}
