-- ===== src/Tasks/Vehicle/Recorded.antt =====
-- A board that keeps a log of the packets offered to the UART of the radio.
use tufan_aks.Base.{List}
use tufan_aks.Tasks.Transmit.Offer.{Offer, recorded}
use tufan_aks.Tasks.Vehicle.Hardware.{Board}

module _ {S L : Type 0} where
  abbrev pub beside : (S → S) → S × L → S × L
  beside f (s, l) = (f s, l)

  abbrev pub beside_answer : {A : Type 0} → (S → A × S) → S × L → A × (S × L)
  beside_answer f (s, l) = ((f s).0, ((f s).1, l))

-- The board, with a log of the packets offered to the radio's UART.
abbrev pub recorded_board : Board → Board
recorded_board H = record H {
  Lora = H.Lora × List Offer;
  lora_uart = record {
    is_driver_installed = λ (s, log). H.lora_uart.is_driver_installed s;
    driver_delete = beside H.lora_uart.driver_delete;
    param_config = beside_answer H.lora_uart.param_config;
    set_pin = beside_answer H.lora_uart.set_pin;
    driver_install = beside_answer H.lora_uart.driver_install;
    pause = beside H.lora_uart.pause;
  };
  lora_hal = record {
    set_mode_pins = λ m0 m1. beside (H.lora_hal.set_mode_pins m0 m1);
    is_aux_ready = beside_answer H.lora_hal.is_aux_ready;
    uart_flush = beside H.lora_hal.uart_flush;
    uart_write = λ bytes. beside (H.lora_hal.uart_write bytes);
    uart_read = λ len timeout. beside_answer (H.lora_hal.uart_read len timeout);
    delay_ms = λ ms. beside (H.lora_hal.delay_ms ms);
    now_ms = λ (s, log). H.lora_hal.now_ms s;
  };
  lora_port = recorded H.lora_port;
}
