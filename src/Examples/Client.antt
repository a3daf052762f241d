-- ===== src/Examples/Client.antt =====
-- The theorems on src/host/ipc/ipc_client.cpp at a viewer that receives a small buffer.
use open_image_debugger.Prelude.{◌≡◌, refl, arith}
use open_image_debugger.Ipc.Execution.{ok}
use open_image_debugger.Ipc.BufferAssembler.Delivery.{transferred}
use open_image_debugger.Host.IpcClient.Handlers.{plot_contents, end_transfer}
use open_image_debugger.Host.IpcClient.Poll.{poll}
use open_image_debugger.Host.IpcClient.Termination.{poll-ends}
use open_image_debugger.Host.IpcClient.Safety.{IsSafe}
use open_image_debugger.Host.IpcClient.PollSafety.{poll-IsSafe}
use open_image_debugger.Host.IpcClient.Streaming.{whole_message, end_transfer-plot_contents}
use open_image_debugger.Examples.{
  environment, client, image, payload, strips, image_accepted, image_stride, every_row,
}
use open_image_debugger.Examples.Assembler.{empty-AllSound}
use open_image_debugger.Examples.Messages.{receiving}

receiving-IsSafe : IsSafe receiving
receiving-IsSafe = record { transfers = empty-AllSound; records = tt }

poll-IsSafe_example : IsSafe (poll environment receiving).1
poll-IsSafe_example = poll-IsSafe environment receiving receiving-IsSafe

poll-ends_example : (poll environment receiving).0 ≡ ok tt
poll-ends_example = poll-ends environment receiving

end_transfer-plot_contents_example :
    (end_transfer environment image.variable_name (record client {
      assembler = transferred environment.memory.allocates client.assembler image payload strips;
    })).model
    ≡ (plot_contents environment (whole_message image payload) client).model
end_transfer-plot_contents_example =
    end_transfer-plot_contents environment client image payload strips image_stride image_accepted
      refl refl (omega arith, (omega arith, tt)) every_row
